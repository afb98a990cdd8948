-- ===== src/Ddos/Examples.antt =====
-- A protection that allows two connections, with whole numbers for scores.
use hashiverse.Prelude.{ℕ, ◌+◌, ◌-◌, ◌*◌, max, ltb, leb, ◌≡◌, refl, some, List, [], ◌∷◌}
use hashiverse.Prelude.Int.{pos, pos_part}
use hashiverse.Assoc.{get, or_default}
use hashiverse.Ddos.{Float, MemDdosProtection, try_new, release_connection}
use hashiverse.Ddos.Slots.{System, Step, Steps, IsCounted, Steps-IsCounted}

abbrev whole : Float
whole = record {
  F = ℕ;
  nought = 0;
  one = 1;
  sub = ◌-◌;
  mul = ◌*◌;
  max = max;
  add = ◌+◌;
  as_secs = λ millis. pos_part millis;
  lt = ltb;
  ge = λ a b. leb b a;
}

abbrev idle : MemDdosProtection whole
idle = record {
  score_threshold = 10;
  decay_per_second = 1;
  bad_request_penalty = 5;
  max_connections_per_ip = 2;
  scores = [];
  connections = [];
}

abbrev ip : List ℕ
ip = 7 ∷ []

abbrev opened_once : MemDdosProtection whole
opened_once = (try_new whole idle ip (pos 1)).0

opens : try_new whole idle ip (pos 1) ≡ (opened_once, some ip)
unfolding try_new get or_default
opens = refl

abbrev dropped_again : System whole
dropped_again = (release_connection whole opened_once ip, [])

run : Steps whole (idle, []) dropped_again
run =
    Steps.then_step (Steps.then_step Steps.done (Step.opened ip (pos 1) opens))
      (Step.dropped [] [] ip)

Steps-IsCounted_example : IsCounted whole dropped_again
Steps-IsCounted_example = Steps-IsCounted whole idle refl run
