-- ===== src/Msgq/Tests.antt =====
-- Witnesses for the theorems on the message queue.
use part.Common.{List, [], false, length, refl, true, ℕ, ◌+◌, ◌<◌, ◌==◌, ◌∷◌, ◌≡◌}
use part.Msgq.{
  Reg, Item, Msgq, new, cancel, Outcome, push, Step, run, run_pending, register_step, push_step,
  clear_step, push_lock_step, cancel_step,
}
use part.Msgq.Serving.{serve, IsServed, push_serves}
use part.Msgq.Stopping.{serve_until, push_lock_stops}
use part.Msgq.Silence.{is_in, some_registers, cancel-run_silent}
use part.Msgq.Removal.{run_removes}

-- A message is its type; the world counts the calls; the function 2 returns true.
abbrev type_of : ℕ → ℕ
type_of msg = msg

abbrev handle : ℕ → ℕ → ℕ → Outcome ℕ
handle i msg w = record { world = w + 1; result = i == 2; cancels = []; clears = false }

abbrev item : ℕ → ℕ → Item
item i ty = record { reg = record { id = i; ty = ty }; disable = false }

abbrev items : List Item
items = item 1 7 ∷ item 2 7 ∷ item 3 8 ∷ item 4 7 ∷ []

abbrev queue : Msgq
queue = record { funcs = items; some_need_remove = false; all_need_remove = false; pending = [] }

push_serves_example :
    IsServed [] (push type_of handle 7 false queue 0) (serve type_of handle 7 items 0)
push_serves_example =
    push_serves type_of handle (λ i msg w. (refl, refl)) 7 queue 0 refl
      ((refl, (refl, (refl, tt))), ((refl, (refl, tt)), ((refl, tt), (tt, tt))))

push_serves_calls : (push type_of handle 7 false queue 0).calls ≡ 1 ∷ 2 ∷ 4 ∷ []
unfolding push
push_serves_calls = refl

push_lock_calls : (push type_of handle 7 true queue 0).calls ≡ 1 ∷ 2 ∷ []
unfolding push
push_lock_calls = refl

push_lock_stops_example :
    IsServed [] (push type_of handle 7 true queue 0) (serve_until type_of handle 7 items 0)
push_lock_stops_example =
    push_lock_stops type_of handle (λ i msg w. (refl, refl)) 7 queue 0 refl refl
      ((refl, (refl, (refl, tt))), ((refl, (refl, tt)), ((refl, tt), (tt, tt))))
      (refl, (refl, (refl, (refl, tt))))

abbrev first : Reg
first = record { id = 1; ty = 7 }

abbrev steps : List (Step ℕ)
steps =
    push_step 7
    ∷ register_step (record { id = 5; ty = 7 }) true
    ∷ clear_step
    ∷ push_lock_step 7
    ∷ []

cancel-run_silent_example : is_in 1 (run type_of handle steps (cancel first queue) 0).calls ≡ false
unfolding some_registers
cancel-run_silent_example = cancel-run_silent type_of handle first steps queue 0 refl

abbrev asking : List (Step ℕ)
asking = register_step first false ∷ cancel_step first ∷ []

run_removes_example :
    let m = (run type_of handle asking new 0).queue in
    (0 < length m.pending) × ((run_pending 0 m).some_need_remove ≡ false)
unfolding run new cancel
run_removes_example = run_removes type_of handle asking 0 refl
