-- ===== src/SubEngine/Engine/Tests.antt =====
-- Two clients of one key, a build that fails, and a source that ends and is built again.
use nodecore.Base.{
  zero, suc, ℕ, zero, suc, ◌≡◌, refl, List, [], ◌∷◌, some, ℕ_discrete, string_dec, true,
}
use nodecore.Keyed.{load, store, delete}
use nodecore.SubEngine.Actor.{ended, send_all, take_message, detach, select_case, take_turn}
use nodecore.SubEngine.Engine.{
  Build, built, build_failed, new_engine, compare_and_delete, get_or_create, take_input,
  take_inputs, not_built, subscribe_loop, EngineEvent, subscribes, takes, run_engine,
}
use nodecore.SubEngine.Engine.Returned.{run_engine-shares, HasReturned, subscribe_loop-HasReturned}

program : Unit {0}
unfolding load store delete ℕ_discrete string_dec send_all take_message detach select_case take_turn
    compare_and_delete get_or_create take_input take_inputs subscribe_loop run_engine
program = tt

-- The second build fails.
abbrev build : ℕ → Build
build (suc zero) = build_failed "no upstream"
build _ = built 0

abbrev two_heads : List EngineEvent
two_heads = subscribes "newHeads" ([] ∷ []) ∷ subscribes "newHeads" ([] ∷ []) ∷ []

-- Both clients are with the actor 0.
shared : (run_engine build two_heads new_engine).sources ≡ ("newHeads", 0) ∷ []
unfolding program
shared = refl

-- The source ends between the lookup and the `select`: it is built again, which fails.
retried :
    (subscribe_loop build "newHeads"
      (((0, ended) ∷ []) ∷ [] ∷ [])
      (run_engine build two_heads new_engine)).0
    ≡ some (not_built "no upstream")
unfolding program
retried = refl

abbrev rebuilt : List EngineEvent
rebuilt =
    subscribes "newHeads" ([] ∷ [])
    ∷ takes 0 ended
    ∷ subscribes "newHeads" ([] ∷ [])
    ∷ subscribes "newHeads" ([] ∷ [])
    ∷ []

run_engine-shares_example : ((run_engine build rebuilt new_engine).actors 0).state.done ≡ true
unfolding program
run_engine-shares_example = run_engine-shares build rebuilt 2 0 refl refl (λ e. cc)

subscribe_loop-HasReturned_example : HasReturned build "newHeads" (
    subscribe_loop build "newHeads"
      (((0, ended) ∷ []) ∷ [] ∷ [])
      (run_engine build two_heads new_engine))
unfolding program
subscribe_loop-HasReturned_example =
    subscribe_loop-HasReturned build "newHeads" two_heads (((0, ended) ∷ []) ∷ [])
