-- ===== src/Network/Verdict.antt =====
-- Which requests a host answers: the loop of `enet_protocol_handle_connect` against counts that do
-- not depend on the order of the peers.
use rusty_enet.Base.{
  ℕ, zero, suc, ◌+◌, ◌≤◌, ◌<◌, ◌^◌, ◌≡◌, Bool, true, false, ◌&&◌, ◌||◌, not, List, [], ◌∷◌, Option,
  none, some, arith, length, ltb, leb, ◌==◌, if◌then◌else◌, set,
}
use rusty_enet.Protocol.{ConnectBody}
use rusty_enet.Peer.{Peer}
use rusty_enet.Network.{
  Addresses, Slot, Network, is_disconnected, is_connecting, find_free, find_peer,
}
use rusty_enet.Network.Answering.{
  Sight, unused, unrelated, duplicate, own, classify, start_answer, answer_found, answer_at, Scan,
  repeated, scanned, scan, Reply, refused, answered, handle_connect,
}

module _ {A : Type 0} (addresses : Addresses A) (x : A) where
  abbrev is_some : Option A → Bool
  is_some none = false
  is_some (some _) = true

  abbrev is_idle : Slot A → Bool
  is_idle s = is_disconnected s.peer.state || is_connecting s.peer.state

  -- Every peer that the loop compares has an address.
  abbrev pub addressed : List (Slot A) → Bool
  addressed [] = true
  addressed (s ∷ l) = (is_idle s || is_some s.address) && addressed l

  abbrev is_at : (A → A → Bool) → Option A → Bool
  is_at f none = false
  is_at f (some y) = f y x

  -- A peer at the same host, and one that is the request's own.
  abbrev pub is_duplicate : Slot A → Bool
  is_duplicate s = not (is_idle s) && is_at addresses.same_host s.address

  abbrev pub is_repeated : (connect_id : ℕ) → Slot A → Bool
  is_repeated k s = is_duplicate s && is_at addresses.same s.address && s.peer.connect_id == k

  abbrev pub any_repeated : (connect_id : ℕ) → List (Slot A) → Bool
  any_repeated k [] = false
  any_repeated k (s ∷ l) = is_repeated k s || any_repeated k l

  abbrev pub duplicates : List (Slot A) → ℕ
  duplicates [] = 0
  duplicates (s ∷ l) = (if is_duplicate s then 1 else 0) + duplicates l

  abbrev free_from : ℕ → Option ℕ → List (Slot A) → Option ℕ
  free_from k none l = find_free k l
  free_from k (some i) l = some i

  -- What the loop finds.
  abbrev findings : (connect_id k : ℕ) → Option ℕ → ℕ → List (Slot A) → Scan
  findings c k o n l =
      if any_repeated c l then repeated else scanned (free_from k o l) (n + duplicates l)

  abbrev sight : (connect_id : ℕ) → Slot A → Sight
  sight k s =
      if is_disconnected s.peer.state
      then unused
      else if is_repeated k s
      then own
      else if is_duplicate s
      then duplicate
      else unrelated

  classify-sight :
      (k : ℕ) (s : Slot A)
      → (is_idle s || is_some s.address) ≡ true
      → classify addresses (some x) k s ≡ sight k s
  unfolding classify
  classify-sight k s h = ground arith

  scan-findings :
      (c k : ℕ) (o : Option ℕ) (n : ℕ) (l : List (Slot A))
      → n + length l < 2 ^ 64
      → addressed l ≡ true
      → scan addresses (some x) c k o n l ≡ findings c k o n l
  unfolding scan find_free
  scan-findings c k none n [] h a = ground arith
  scan-findings c k (some j) n [] h a = ground arith
  scan-findings c k none n (s ∷ l) h a = ground (
    arith,
    classify-sight c s,
    scan-findings c (k + 1) (some k) n l,
    scan-findings c (k + 1) none n l,
    scan-findings c (k + 1) none (n + 1) l,
  )
  scan-findings c k (some j) n (s ∷ l) h a = ground (
    arith,
    classify-sight c s,
    scan-findings c (k + 1) (some j) n l,
    scan-findings c (k + 1) (some j) (n + 1) l,
  )

  abbrev answer_free : ConnectBody → (connect_data : ℕ) → Network A → Option ℕ → Reply A
  answer_free b d n none = refused
  answer_free b d n (some i) = answer_found x b d n i (find_peer n i)

  -- The verdict on a request from the address `x`.
  abbrev pub verdict : ConnectBody → (connect_data : ℕ) → Network A → Reply A
  verdict b d n =
      if leb 1 b.channel_count
        && leb b.channel_count 255
        && not (any_repeated b.connect_id n.slots)
        && ltb (duplicates n.slots) n.host.duplicate_peers
      then answer_free b d n (find_free 0 n.slots)
      else refused

  answer_at-findings :
      (b : ConnectBody) (d : ℕ) (n : Network A) (o : Option ℕ) (k : ℕ)
      → n.received_address ≡ some x
      → answer_at b d n (scanned o k)
        ≡ (if ltb k n.host.duplicate_peers then answer_free b d n o else refused)
  answer_at-findings b d n none k r = ground arith
  answer_at-findings b d n (some i) k r = ground arith

  -- The loop over the peers that decides on a request is a test on the whole list: a request with
  -- 1 to 255 channels, that no peer at its address has made before with the same number, from a
  -- host with fewer peers than allowed, is answered by the first free peer if there is one, and
  -- every other request is refused. The address of the datagram is known, the host has at most
  -- 4095 peers, and those that the loop compares have addresses.
  pub handle_connect-verdict :
      (b : ConnectBody) (d : ℕ) (n : Network A)
      → n.received_address ≡ some x
      → length n.slots ≤ 4095
      → addressed n.slots ≡ true
      → handle_connect addresses b d n ≡ verdict b d n
  unfolding handle_connect
  handle_connect-verdict b d n r l a = ground (
    arith,
    scan-findings b.connect_id 0 none 0 n.slots,
    answer_at-findings b d n (find_free 0 n.slots) (duplicates n.slots) r,
  )

  duplicates-set_le :
      (l : List (Slot A)) (i : ℕ) (s : Slot A) → duplicates (set l i s) ≤ duplicates l + 1
  duplicates-set_le [] i s = ground arith
  duplicates-set_le (y ∷ l) zero s = ground arith
  duplicates-set_le (y ∷ l) (suc i) s = ground (arith, duplicates-set_le l i s)

  answer_found-duplicates :
      (b : ConnectBody) (d i j : ℕ) (n m : Network A) (o : Option Peer)
      → answer_found x b d n i o ≡ answered j m
      → duplicates m.slots ≤ duplicates n.slots + 1
  answer_found-duplicates b d i j n m none e = ground arith
  answer_found-duplicates b d i j n m (some p) e =
      let c = start_answer n.host b d p in
      ground (arith, duplicates-set_le n.slots i (record { peer = c.peer; address = some x }))

  answer_free-duplicates :
      (b : ConnectBody) (d j : ℕ) (n m : Network A) (o : Option ℕ)
      → answer_free b d n o ≡ answered j m
      → duplicates m.slots ≤ duplicates n.slots + 1
  answer_free-duplicates b d j n m none e = ground arith
  answer_free-duplicates b d j n m (some i) e =
      answer_found-duplicates b d i j n m (find_peer n i) e

  -- Answering a request leaves a host with at most as many peers at the request's host as it
  -- allows, and happens only where no peer has that request already. The address of the datagram
  -- is known, the host has at most 4095 peers, and those that the loop compares have addresses.
  pub handle_connect-duplicates :
      (b : ConnectBody) (d j : ℕ) (n m : Network A)
      → n.received_address ≡ some x
      → length n.slots ≤ 4095
      → addressed n.slots ≡ true
      → handle_connect addresses b d n ≡ answered j m
      → (duplicates m.slots ≤ n.host.duplicate_peers) × (any_repeated b.connect_id n.slots ≡ false)
  handle_connect-duplicates b d j n m r l a e = ground (
    arith,
    handle_connect-verdict b d n r l a,
    answer_free-duplicates b d j n m (find_free 0 n.slots),
  )
