-- ===== src/Client/Tests.antt =====
-- The client at concrete updates.
use rkvm.Prelude.{refl, true, List, [], ◌∷◌, none, some, ◌≢◌, ℕ_discrete, ℕ_eq}
use rkvm.Input.Tests.{glue}
use rkvm.Input.Writer.{written, ok}
use rkvm.Net.Message.{Description, Update}
use rkvm.Net.Protocol.{is_legal, after, are_legal}
use rkvm.Client.Updates.{Answers, invalid_data, handle, serve}
use rkvm.Client.Legal.{devices, Follows, handle-Follows, serve-are_legal}

abbrev mouse : Description
mouse = record {
  name = [];
  vendor = 1;
  product = 2;
  version = 3;
  rel = [];
  abs = [];
  keys = [];
  delay = none;
  period = none;
}

abbrev fine : Answers
fine = record { built = ok tt; outcomes = written ∷ written ∷ []; ponged = true }

abbrev plugged : List (Answers × Update)
plugged =
    (fine, Update.create_device 4 mouse)
    ∷ (fine, Update.set_key_state 4 [])
    ∷ (fine, Update.destroy_device 4)
    ∷ []

handle-Follows_example :
    Follows (devices []) (Update.destroy_device 4) (handle glue fine [] (Update.destroy_device 4))
handle-Follows_example = handle-Follows glue fine [] (Update.destroy_device 4) tt

serve-are_legal_example : serve glue plugged [] ≢ some ([], invalid_data)
unfolding are_legal is_legal after ℕ_discrete
serve-are_legal_example = serve-are_legal glue plugged [] refl
