-- ===== src/Chain/Supervisor/Heads.antt =====
-- internal/upstreams/chain_supervisor.go: the head of the chain state against the merged head of the
-- fork choice.
use nodecore.Base.{
  ◌≡◌, ◌⊎◌, refl, Bool, true, false, ◌||◌, List, [], ◌∷◌, String, Option, none, some, arith,
  string_dec, Bool-cases, inl, inr, subst,
}
use nodecore.Keyed.{load, delete}
use nodecore.Protocol.Block.{Block, zero_block, is_empty_by_height}
use nodecore.Protocol.State.{
  AvailabilityStatus, unavailable, UpstreamState, UpstreamEventType, UpstreamEvent,
  state_upstream_event, head_upstream_event, remove_upstream_event, valid_upstream_event,
}
use nodecore.ForkChoice.Height.{new_height_fork_choice, choose-Reports}
use nodecore.Chain.Supervisor.{
  Config, Supervisor, new_supervisor, move_head, update_head, calculate_head_lags, update_state,
  merged_state, register, recover, unregister, handle, process_event, process_events,
}

-- The chain shows the merged head; or, if it has been told of an empty head, maybe the zero block.
abbrev pub Shows : Bool → Supervisor → Type 0
Shows told b =
    (b.state.head_data.head ≡ b.fc.max_head)
    ⊎ ((b.state.head_data.head ≡ zero_block) × (told ≡ true))

Shows-or : (told now : Bool) (b : Supervisor) → Shows told b → Shows (told || now) b
Shows-or told now b (inl e) = inl e
Shows-or told now b (inr (z, t)) = inr (z, ground (arith, t))

move_head-Shows :
    (told : Bool) (id : String) (s : AvailabilityStatus) (h : Block) (b : Supervisor)
    → Shows told b
    → Shows (told || is_empty_by_height h) (move_head id s h b).0
unfolding move_head
move_head-Shows told id s h b v = elim (Bool-cases (is_empty_by_height h)) [
  | inl e ↦ rw (move_head, e) (inr (refl, ground arith))
  | inr e ↦ ground (arith, e, v, choose-Reports id s h b.fc)
]

update_head-Shows :
    (c : Config) (told : Bool) (id : String) (s : AvailabilityStatus) (h : Block) (b : Supervisor)
    → Shows told b
    → Shows (told || is_empty_by_height h) (update_head c id s h b).0
unfolding update_head calculate_head_lags
update_head-Shows c told id s h b v = move_head-Shows told id s h b v

-- The event reports an empty head, or removes an upstream whose head is empty.
abbrev pub tells_empty : UpstreamEventType → Option UpstreamState → Bool
tells_empty remove_upstream_event (some u) = is_empty_by_height u.head_data
tells_empty (head_upstream_event _ h) _ = is_empty_by_height h
tells_empty _ _ = false

update_state-Shows :
    (c : Config) (told : Bool) (b : Supervisor) → Shows told b → Shows told (update_state c b).0
unfolding update_state merged_state
update_state-Shows c told b v = v

unregister-Shows :
    (c : Config) (told : Bool) (id : String) (o : Option UpstreamState) (b : Supervisor)
    → Shows told b
    → Shows (told || tells_empty remove_upstream_event o) (unregister c id o b).0
unfolding unregister
unregister-Shows c told id none b v = Shows-or told false b v
unregister-Shows c told id (some u) b v =
    update_head-Shows c told id unavailable u.head_data
      (update_state c (record b {
        upstream_states = delete string_dec id b.upstream_states;
        last_over = delete string_dec id b.last_over;
      })).0
      (update_state-Shows c told _ v)

recover-Shows :
    (c : Config) (told : Bool) (id : String) (u : UpstreamState) (b : Supervisor)
    → Shows told b
    → Shows (told || false) (recover c id u b).0
unfolding recover
recover-Shows c told id u b v = elim (Bool-cases (is_empty_by_height u.head_data)) [
  | inl e ↦ rw e (Shows-or told false b v)
  | inr e ↦
      let x = (update_head c id u.status u.head_data b).0 in
      rw e
        (subst (λ k. Shows (told || k) x) e (update_head-Shows c told id u.status u.head_data b v))
]

register-Shows :
    (c : Config) (told : Bool) (id : String) (u : UpstreamState) (b : Supervisor)
    → Shows told b
    → Shows told (register c id u b).0
unfolding register
register-Shows c told id u b v = update_state-Shows c told _ v

handle-Shows :
    (c : Config) (told : Bool) (id : String) (e : UpstreamEventType) (b : Supervisor)
    → Shows told b
    → Shows (told || tells_empty e (load string_dec id b.upstream_states)) (handle c id e b).0
unfolding handle
handle-Shows c told id remove_upstream_event b v = unregister-Shows c told id _ b v
handle-Shows c told id (head_upstream_event s head) b v = update_head-Shows c told id s head _ v
handle-Shows c told id (state_upstream_event u) b v =
    Shows-or told false (register c id u b).0 (register-Shows c told id u b v)
handle-Shows c told id (valid_upstream_event none) b v = Shows-or told false b v
handle-Shows c told id (valid_upstream_event (some u)) b v =
    recover-Shows c told id u (register c id u b).0 (register-Shows c told id u b v)

-- Some event of the run tells the chain of an empty head, or one has before.
abbrev pub told_empty : Config → Bool → List UpstreamEvent → Supervisor → Bool
told_empty c told [] b = told
told_empty c told (e ∷ es) b =
    told_empty c (told || tells_empty e.event_type (load string_dec e.id b.upstream_states)) es
      (process_event c e b).0

run-Shows :
    (c : Config) (told : Bool) (es : List UpstreamEvent) (b : Supervisor)
    → Shows told b
    → Shows (told_empty c told es b) (process_events c es b).0
unfolding process_events process_event
run-Shows c told [] b v = v
run-Shows c told (e ∷ es) b v =
    run-Shows c (told || tells_empty e.event_type (load string_dec e.id b.upstream_states)) es
      (process_event c e b).0 (handle-Shows c told e.id e.event_type b v)

-- After any events, the head of the chain is the merged head of the fork choice, unless one of the events
-- reported an empty head or removed an upstream whose head was empty: then it may also be the zero
-- block.
pub process_events-Shows :
    (c : Config) (es : List UpstreamEvent)
    → Shows (told_empty c false es new_supervisor) (process_events c es new_supervisor).0
unfolding new_supervisor new_height_fork_choice
process_events-Shows c es = run-Shows c false es new_supervisor (inl refl)
