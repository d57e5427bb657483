-- ===== src/Tests/Connecting.antt =====
-- A connection request that is answered.
use rusty_enet.Base.{◌≡◌, refl}
use rusty_enet.Peer.{Context, accepted, context}
use rusty_enet.Connection.Counters.{IsCounted}
use rusty_enet.Handshake.{answers, handle_verify_connect}
use rusty_enet.Handshake.Agreement.{Agreed, handle_verify_connect-Agreed}
use rusty_enet.Tests.Samples.{asking, answer}

asking-IsCounted : IsCounted 3 1 asking
asking-IsCounted = record { connected = refl; limited = refl }

abbrev answered : Context
answered = context (handle_verify_connect answer asking)

answer_accepted : handle_verify_connect answer asking ≡ accepted answered
unfolding handle_verify_connect answers
answer_accepted = refl

handle_verify_connect-Agreed_example : Agreed asking.peer answered.peer
handle_verify_connect-Agreed_example =
    handle_verify_connect-Agreed answer asking answered answer_accepted
