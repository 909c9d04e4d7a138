-- ===== src/Rpc/Tests.antt =====
-- packages/storage/src/rpc.ts: the client's theorems at a run in which the worker answers twice, out of
-- order and with a wrong kind, and then fails.
use opfs_webauthn.Prelude.{nat_eq, All, List, codes, [], ◌∷◌, ◌≡◌, ◌≤◌, ◌+◌, ◌++◌, none}
use opfs_webauthn.Map.{tally}
use opfs_webauthn.Rpc.Protocol.{WorkerRequest, WorkerResponse, response}
use opfs_webauthn.Rpc.Client.{Event, sends, hears, fails, run, new_client, terminate}
use opfs_webauthn.Rpc.Client.Counting.{settled, posted}
use opfs_webauthn.Rpc.Client.Settling.{Accepts, Stays, settled-le-one, settled-terminate}
use opfs_webauthn.Rpc.Client.Guards.{Matching, Matching-run}

abbrev noisy : List Event
noisy =
    sends none WorkerRequest.ping
    ∷ sends none (WorkerRequest.get_note (codes "a"))
    ∷ hears (response 2 WorkerResponse.ping)
    ∷ hears (response 2 (WorkerResponse.get_note none))
    ∷ hears (response 1 WorkerResponse.ping)
    ∷ sends none WorkerRequest.bootstrap
    ∷ fails
    ∷ sends none WorkerRequest.ping
    ∷ []

noisy-Accepts : All Accepts noisy
noisy-Accepts = (tt, (tt, (tt, (tt, (tt, (tt, (tt, (tt, tt))))))))

noisy-Stays : All Stays noisy
noisy-Stays = (tt, (tt, (tt, (tt, (tt, (tt, (tt, (tt, tt))))))))

settled-le-one_example :
    settled 2 (run noisy new_client).1 + tally 2 (run noisy new_client).0.pending ≤ 1
settled-le-one_example = settled-le-one noisy 2 noisy-Accepts

settled-terminate_example :
    let (c, out) = run noisy new_client in
    let (c', last) = terminate none c in
    (c'.pending ≡ []) × (settled 4 (out ++ last) ≡ posted 4 out)
settled-terminate_example = settled-terminate noisy 4 none noisy-Accepts noisy-Stays

Matching-run_example : Matching (run noisy new_client).1 (run noisy new_client).1
Matching-run_example = Matching-run noisy noisy-Accepts
