-- ===== src/SubEngine/Actor/Tests.antt =====
-- A source with room for two events, a client that lags and one that reads.
use nodecore.Base.{◌≡◌, refl, List, [], ◌∷◌, ◌++◌, true, arith, ℕ_discrete, some}
use nodecore.Keyed.{load, store, delete}
use nodecore.SubEngine.Actor.{
  Actor, start_actor, ActorInput, subscribe, timer, message, failure, unsubscribe, client_read,
  send_all, take_message, detach, select_case, take_turn, run, ws_subscriber_too_slow_error,
}
use nodecore.SubEngine.Actor.Kept.{IsActor}
use nodecore.SubEngine.Actor.Reached.{run-start_actor-IsActor}
use nodecore.SubEngine.Actor.Served.{Serves}
use nodecore.SubEngine.Actor.Gapless.{subscribe-Serves}
use nodecore.SubEngine.Actor.Idle.{run-ends}

program : Unit {0}
unfolding load store delete ℕ_discrete send_all take_message detach select_case take_turn run
program = tt

abbrev lagging : List ActorInput
lagging =
    subscribe
    ∷ subscribe
    ∷ message (1 ∷ [])
    ∷ message (2 ∷ [])
    ∷ client_read 2
    ∷ message (3 ∷ [])
    ∷ client_read 2
    ∷ []

abbrev after_lag : Actor
after_lag = run lagging (start_actor 2)

-- The first client is disconnected at the third event.
one_left : after_lag.refs ≡ 1
unfolding program
one_left = refl

why_gone :
    after_lag.gone
    ≡ (
      1,
      record {
        read = [];
        ch = (1 ∷ []) ∷ (2 ∷ []) ∷ [];
        closed = true;
        err = some ws_subscriber_too_slow_error;
      },
    )
      ∷ []
unfolding program
why_gone = refl

-- The default buffer.
default_buffer : (start_actor 0).buf_size ≡ 100
default_buffer = refl

run-start_actor-IsActor_example : IsActor (run lagging (start_actor 2))
run-start_actor-IsActor_example = run-start_actor-IsActor 2 lagging

abbrev later : List ActorInput
later = message (4 ∷ []) ∷ client_read 3 ∷ unsubscribe 2 ∷ failure ws_subscriber_too_slow_error ∷ []

subscribe-Serves_example :
    Serves 3 ((4 ∷ []) ∷ []) (run later (take_turn subscribe (run lagging (start_actor 2))))
unfolding program
subscribe-Serves_example =
    subscribe-Serves later (run lagging (start_actor 2)) (run-start_actor-IsActor 2 lagging) refl
      (refl, (refl, (refl, (refl, tt))))

abbrev all_left : List ActorInput
all_left = subscribe ∷ message (1 ∷ []) ∷ unsubscribe 1 ∷ []

run-ends_example :
    (run
      ((message (2 ∷ []) ∷ unsubscribe 1 ∷ []) ++ timer ∷ [])
      (run all_left (start_actor 2))).done
    ≡ true
unfolding program
run-ends_example =
    run-ends (message (2 ∷ []) ∷ unsubscribe 1 ∷ []) (run all_left (start_actor 2))
      (run-start_actor-IsActor 2 all_left) (omega arith) refl (refl, (refl, tt))
