-- ===== src/Gatherer/Examples.antt =====
-- Runs of the gatherer, and its theorems at concrete inputs.
use hashiverse.Prelude.{◌≡◌, refl, List, [], ◌∷◌, to_be_bytes}
use hashiverse.Gatherer.{
  default, compact, finish, to_bytes, put_u8, put_bytes, put_bytes_gatherer, put_u16,
}
use hashiverse.Gatherer.Contents.{Put, run, written_all, to_bytes-run}

-- A header, a flag and a large blob, as in a `GetPostBundle` response.
abbrev response : List Put
response =
    Put.bytes (1 ∷ 2 ∷ [])
    ∷ Put.u16 300
    ∷ Put.gatherer (record { segments = []; current = 7 ∷ [] })
    ∷ Put.bytes (9 ∷ 9 ∷ 9 ∷ 9 ∷ [])
    ∷ Put.u8 5
    ∷ []

finish-run :
    finish (run default response)
    ≡ (1 ∷ 2 ∷ []) ∷ (1 ∷ 44 ∷ 7 ∷ []) ∷ (9 ∷ 9 ∷ 9 ∷ 9 ∷ []) ∷ (5 ∷ []) ∷ []
unfolding finish run default put_u8 put_bytes put_bytes_gatherer put_u16 to_be_bytes
finish-run = refl

finish-compact-run :
    finish (compact (run default response) 4)
    ≡ (1 ∷ 2 ∷ 1 ∷ 44 ∷ 7 ∷ []) ∷ (9 ∷ 9 ∷ 9 ∷ 9 ∷ []) ∷ (5 ∷ []) ∷ []
unfolding finish compact run default put_u8 put_bytes put_bytes_gatherer put_u16 to_be_bytes
finish-compact-run = refl

to_bytes-run_example : to_bytes (run default response) ≡ written_all response
to_bytes-run_example = to_bytes-run response
