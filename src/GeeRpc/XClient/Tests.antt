-- ===== src/GeeRpc/XClient/Tests.antt =====
-- Runs of the calls over a discovery.
use go_little_project.Base.{◌≡◌, refl, [], ◌∷◌, none, some, str, lookup, str_eq, nat_eq, ok, panic}
use go_little_project.GeeRpc.Client.{new_client_codec, is_available}
use go_little_project.GeeRpc.XClient.{XClient, dial, call, calls}
use go_little_project.GeeRpc.XClient.Dials.{call-again}

abbrev x_client : XClient
x_client = record { clients = []; conns = (7, new_client_codec []) ∷ [] }

call-again_example :
    (y : XClient) × (dial x_client (str "tcp@a") (some 7, none) ≡ ok (y, none, none))
    × (call x_client (str "tcp@a") (some 7, none) ≡ panic)
    × (call y (str "tcp@a") (none, some (str "refused")) ≡ ok (y, calls 7))
unfolding lookup new_client_codec is_available
call-again_example =
    call-again x_client (str "tcp@a") 7 (new_client_codec []) (none, some (str "refused")) refl refl
      refl
