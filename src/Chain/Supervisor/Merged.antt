-- ===== src/Chain/Supervisor/Merged.antt =====
-- Between two events the chain state is the merge of the current upstream states.
use nodecore.Base.{
  ◌≡◌, inl, inr, refl, ap, sym, ◌∙◌, List, [], ◌∷◌, String, Option, none, some, arith, string_dec,
  Bool-cases, Option-cases,
}
use nodecore.Keyed.{load, store}
use nodecore.Protocol.Block.{Block, is_empty_by_height}
use nodecore.Protocol.State.{
  AvailabilityStatus, UpstreamState, UpstreamEvent, state_upstream_event, head_upstream_event,
  remove_upstream_event, valid_upstream_event, UpstreamEventType,
}
use nodecore.Chain.State.{ChainHeadData, ChainSupervisorState}
use nodecore.Chain.Merge.{UpstreamStates}
use nodecore.Chain.Merge.Headless.{forget_all, headless}
use nodecore.Chain.Supervisor.{
  Config, Supervisor, merged_state, update_state, move_head, update_head, calculate_head_lags,
  refresh_head, register, unregister, recover, handle, process_event, process_events,
}

merged_state-forget_all :
    (c : Config) (m : UpstreamStates) (h : ChainHeadData)
    → merged_state c (forget_all m) h ≡ merged_state c m h
unfolding merged_state
merged_state-forget_all c m h = simp headless

-- A new head for a known upstream is all that `refresh_head` changes.
forget_all-store :
    (id : String) (u : UpstreamState) (h : Block) (m : UpstreamStates)
    → load string_dec id m ≡ some u
    → forget_all (store string_dec id (record u { head_data = h }) m) ≡ forget_all m
unfolding load store
forget_all-store id u h [] e = cc
forget_all-store id u h ((j, w) ∷ m) e = ground (arith, forget_all-store id u h m)

forget_all-refresh_head :
    (id : String) (h : Block) (m : UpstreamStates) → forget_all (refresh_head id h m) ≡ forget_all m
unfolding refresh_head
forget_all-refresh_head id h m = elim (Option-cases (load string_dec id m)) [
  | inl e ↦ rw (e, refresh_head)
  | inr (u, e) ↦ rw (e, refresh_head) (forget_all-store id u h m e)
]

abbrev pub IsMerged : Config → Supervisor → Type 0
IsMerged c b = b.state ≡ merged_state c b.upstream_states b.state.head_data

update_state-IsMerged : (c : Config) (b : Supervisor) → IsMerged c (update_state c b).0
unfolding update_state merged_state
update_state-IsMerged c b = refl

abbrev MovesHead : Supervisor → Supervisor → Type 0
MovesHead b b' =
    (b'.upstream_states ≡ b.upstream_states)
    × (b'.state ≡ record b.state { head_data = b'.state.head_data })

move_head-MovesHead :
    (id : String) (s : AvailabilityStatus) (h : Block) (b : Supervisor)
    → MovesHead b (move_head id s h b).0
unfolding move_head
move_head-MovesHead id s h b = ground arith

IsMerged-of_MovesHead :
    (c : Config) (b b' : Supervisor) → MovesHead b b' → IsMerged c b → IsMerged c b'
unfolding merged_state
IsMerged-of_MovesHead c b b' m h =
    m.1
    ∙ ap (λ (s : ChainSupervisorState). record s { head_data = b'.state.head_data }) h
    ∙ ap (λ ups. merged_state c ups b'.state.head_data) (sym m.0)

update_head-IsMerged :
    (c : Config) (id : String) (s : AvailabilityStatus) (h : Block) (b : Supervisor)
    → IsMerged c b
    → IsMerged c (update_head c id s h b).0
unfolding update_head calculate_head_lags
update_head-IsMerged c id s h b m =
    IsMerged-of_MovesHead c b (move_head id s h b).0 (move_head-MovesHead id s h b) m

refresh_head-IsMerged :
    (c : Config) (id : String) (h : Block) (b : Supervisor)
    → IsMerged c b
    → IsMerged c (record b { upstream_states = refresh_head id h b.upstream_states })
refresh_head-IsMerged c id h b m =
    m
    ∙ sym (merged_state-forget_all c b.upstream_states _)
    ∙ ap (λ ups. merged_state c ups b.state.head_data)
        (sym (forget_all-refresh_head id h b.upstream_states))
    ∙ merged_state-forget_all c (refresh_head id h b.upstream_states) _

unregister-IsMerged :
    (c : Config) (id : String) (o : Option UpstreamState) (b : Supervisor)
    → IsMerged c b
    → IsMerged c (unregister c id o b).0
unfolding unregister
unregister-IsMerged c id none b m = m
unregister-IsMerged c id (some u) b m = update_head-IsMerged c id _ _ _ (update_state-IsMerged c _)

recover-IsMerged :
    (c : Config) (id : String) (u : UpstreamState) (b : Supervisor)
    → IsMerged c b
    → IsMerged c (recover c id u b).0
unfolding recover
recover-IsMerged c id u b m = elim (Bool-cases (is_empty_by_height u.head_data)) [
  | inl e ↦ rw e m
  | inr e ↦ rw e (update_head-IsMerged c id _ _ b m)
]

handle-IsMerged :
    (c : Config) (id : String) (e : UpstreamEventType) (b : Supervisor)
    → IsMerged c b
    → IsMerged c (handle c id e b).0
unfolding handle register
handle-IsMerged c id remove_upstream_event b m = unregister-IsMerged c id _ b m
handle-IsMerged c id (head_upstream_event s h) b m =
    update_head-IsMerged c id s h _ (refresh_head-IsMerged c id h b m)
handle-IsMerged c id (state_upstream_event u) b m = update_state-IsMerged c _
handle-IsMerged c id (valid_upstream_event none) b m = m
handle-IsMerged c id (valid_upstream_event (some u)) b m =
    recover-IsMerged c id u _ (update_state-IsMerged c _)

process_events-IsMerged :
    (c : Config) (es : List UpstreamEvent) (b : Supervisor)
    → IsMerged c b
    → IsMerged c (process_events c es b).0
unfolding process_events process_event
process_events-IsMerged c [] b m = m
process_events-IsMerged c (e ∷ es) b m =
    process_events-IsMerged c es _ (handle-IsMerged c e.id e.event_type b m)

-- Once an upstream has been registered, the chain state stays the merge of the current upstream
-- states whatever events follow: status, methods, blocks, lower bounds, labels, subscription
-- methods and capabilities are never stale.
pub process_events-merged :
    (c : Config) (id : String) (u : UpstreamState) (es : List UpstreamEvent) (b : Supervisor)
    → let b' =
        (process_events c (record { id = id; event_type = state_upstream_event u } ∷ es) b).0 in
      b'.state ≡ merged_state c b'.upstream_states b'.state.head_data
unfolding process_events process_event handle register
process_events-merged c id u es b = process_events-IsMerged c es _ (update_state-IsMerged c _)
