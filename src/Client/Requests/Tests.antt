-- ===== src/Client/Requests/Tests.antt =====
-- Two requests wait; the answer to the second comes.
use ram_vram_sharing.Prelude.{ℕ, ◌≡◌, true, false, Option, some, List, [], ◌∷◌, get_or, count}
use ram_vram_sharing.Client.Requests.{Answers, on_data, on_drop}
use ram_vram_sharing.Client.Requests.Promises.{answered, owed, promises_lem}

abbrev waiting : Answers
waiting = record {
  read_buffer = [];
  pending_requests = (1, 101) ∷ (2, 102) ∷ [];
  resolved = [];
  connected = true;
  socket = true;
  closes = 0;
}

abbrev answer_to_two : List ℕ
answer_to_two = 1 ∷ 0 ∷ 0 ∷ 0 ∷ 2 ∷ []

promises_lem_example :
    let prefix_of : List ℕ → ℕ = λ b. get_or b 0 0 in
    let verified_id : List ℕ → Option ℕ = λ b. some (get_or b 4 0) in
    (owed 102 (on_data prefix_of verified_id answer_to_two waiting) ≡ owed 102 waiting)
    × ((on_drop waiting).pending_requests ≡ [])
    × ((on_drop waiting).connected ≡ false)
    × (count 102 (answered (on_drop waiting).resolved) ≡ owed 102 waiting)
promises_lem_example =
    promises_lem (λ b. get_or b 0 0) (λ b. some (get_or b 4 0)) answer_to_two 102 waiting
