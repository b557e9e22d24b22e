-- ===== src/SubEngine/Actor/Kept.antt =====
-- internal/upstreams/flow/subengine/engine.go: what holds of the state of an actor between two inputs.
use nodecore.Base.{
  ℕ, ◌+◌, ◌≤◌, true, false, ◌&&◌, ◌==◌, ltb, List, [], ◌∷◌, Option, none, some, length, ℕ_discrete,
  ◌≡◌, ◌≢◌, refl, inl, inr, arith, Option-cases, length-append, sym, ◌∙◌,
}
use nodecore.Keyed.{load, Entries, IsMap, map-Entries, load-Entries, delete-Entries, delete-IsMap}
use nodecore.SubEngine.Actor.{
  ResponseError, ws_total_failure_error, Subscriber, Actor, close_all, terminate, send, send_all,
  take_message, attach, detach, take_event, read_one,
}
use nodecore.SubEngine.Actor.Carried.{
  append-Entries, length-send_all, send_all-Entries, send_all-IsMap, length-delete,
  close_all-Entries, close_all-IsMap, length-close_all, read_from-Entries, read_from-IsMap,
  length-read_from,
}

-- A channel within its capacity that is closed exactly if its cause is set.
abbrev pub IsChannel : ℕ → Subscriber → Type 0
IsChannel size s = (s.closed ≡ elim s.err [ none ↦ false | some e ↦ true ]) × length s.ch ≤ size

abbrev pub IsHeld : Actor → ℕ → Subscriber → Type 0
IsHeld g id s = (id ≤ g.seq) × ((s.closed ≡ g.done) × IsChannel g.buf_size s)

abbrev pub IsLet : Actor → ℕ → Subscriber → Type 0
IsLet g id s = (id ≤ g.seq) × IsChannel g.buf_size s

abbrev pub AreSubs : Actor → Type 0
AreSubs g = Entries (IsHeld g) g.subs × Entries (IsLet g) g.gone

abbrev pub AreCounts : Actor → Type 0
AreCounts g =
    (g.refs ≡ length g.subs)
    × (g.refs ≤ g.seq)
    × (g.armed ≡ (g.refs == 0 && ltb 0 g.seq))
    × (g.draining ≡ ltb 0 g.seq)

pub record IsActor (g : Actor) : Type 0 where
  pub is_map : IsMap g.subs
  pub subs : AreSubs g
  pub counts : AreCounts g

send-IsChannel :
    (size : ℕ) (event : List ℕ) (s : Subscriber)
    → ltb (length s.ch) size ≡ true
    → IsChannel size s
    → IsChannel size (send event s)
send-IsChannel size event s e h = (h.0, ground (arith, length-append s.ch (event ∷ [])))

take_message-AreSubs :
    (event : List ℕ) (g : Actor) → g.done ≡ false → AreSubs g → AreSubs (take_message event g)
unfolding take_message
take_message-AreSubs event g e h =
    let sent =
      send_all-Entries (IsHeld g) (IsLet g) g.buf_size event
        (λ id s q p. (p.0, (p.1.0, send-IsChannel g.buf_size event s q p.1.1)))
        (λ id s p. (p.0, (refl, p.1.1.1))) g.subs h.0 in
    (sent.0, append-Entries (IsLet g) (send_all g.buf_size event g.subs).1 g.gone sent.1 h.1)

take_message-AreCounts :
    (event : List ℕ) (g : Actor)
    → g.draining ≡ true
    → AreCounts g
    → AreCounts (take_message event g)
unfolding take_message
take_message-AreCounts event g d h = ground (arith, h, length-send_all g.buf_size event g.subs)

pub take_message-IsActor :
    (event : List ℕ) (g : Actor)
    → g.draining ≡ true
    → g.done ≡ false
    → IsActor g
    → IsActor (take_message event g)
unfolding take_message
take_message-IsActor event g d e h = record {
  is_map = send_all-IsMap g.buf_size event g.subs h.is_map;
  subs = take_message-AreSubs event g e h.subs;
  counts = take_message-AreCounts event g d h.counts;
}

pub detach-IsActor : (id : ℕ) (g : Actor) → g.done ≡ false → IsActor g → IsActor (detach id g)
unfolding detach
detach-IsActor id g d h = elim (Option-cases (load ℕ_discrete id g.subs)) [
  | inl e ↦ rw (detach, e) h
  | inr (s, e) ↦
      let p = load-Entries (IsHeld g) ℕ_discrete id s g.subs h.subs.0 e in
      rw (detach, e)
        (record {
          is_map = delete-IsMap ℕ_discrete id g.subs h.is_map;
          subs =
              (delete-Entries (IsHeld g) ℕ_discrete id g.subs h.subs.0, ((p.0, p.1.1), h.subs.1));
          counts = ground (arith, h.counts, length-delete id s g.subs h.is_map e);
        })
]

pub attach-IsActor : (g : Actor) → g.done ≡ false → IsActor g → IsActor (attach g)
attach-IsActor g d h = record {
  is_map = (
    map-Entries (IsHeld g) (λ id _. id ≢ g.seq + 1) g.subs (λ id s p e. omega (arith, p.0, e))
        h.subs.0,
    h.is_map,
  );
  subs = (
    (
      (omega arith, (sym d, (refl, omega arith))),
      map-Entries (IsHeld g) (IsHeld (attach g)) g.subs (λ id s p. (omega (arith, p.0), p.1))
          h.subs.0,
    ),
    map-Entries (IsLet g) (IsLet (attach g)) g.gone (λ id s p. (omega (arith, p.0), p.1)) h.subs.1,
  );
  counts = ground (arith, h.counts);
}

pub close_all-IsActor :
    (cause : ResponseError) (g : Actor)
    → IsActor g
    → IsActor (record g { subs = close_all cause g.subs; done = true })
close_all-IsActor cause g h =
    let g' = record g { subs = close_all cause g.subs; done = true } in
    record {
      is_map = close_all-IsMap cause g.subs h.is_map;
      subs = (
        close_all-Entries (IsHeld g) (IsHeld g') cause (λ id s p. (p.0, (refl, (refl, p.1.1.1))))
            g.subs h.subs.0,
        h.subs.1,
      );
      counts =
          (h.counts.0 ∙ sym (length-close_all cause g.subs), h.counts.1, h.counts.2, h.counts.3);
    }

pub terminate-IsActor :
    (cause : Option ResponseError) (g : Actor) → IsActor g → IsActor (terminate cause g)
terminate-IsActor none g h = close_all-IsActor ws_total_failure_error g h
terminate-IsActor (some cause) g h = close_all-IsActor cause g h

take_event-IsChannel :
    (size : ℕ) (s : Subscriber) → IsChannel size s → IsChannel size (take_event s)
take_event-IsChannel size s h = ground (arith, h)

take_event-closed : (s : Subscriber) → (take_event s).closed ≡ s.closed
take_event-closed s = ground arith

pub read_one-IsActor : (id : ℕ) (g : Actor) → IsActor g → IsActor (read_one id g)
read_one-IsActor id g h = record {
  is_map = read_from-IsMap id g.subs h.is_map;
  subs = (
    read_from-Entries (IsHeld g)
        (λ j s p. (p.0, (take_event-closed s ∙ p.1.0, take_event-IsChannel g.buf_size s p.1.1))) id
        g.subs h.subs.0,
    read_from-Entries (IsLet g) (λ j s p. (p.0, take_event-IsChannel g.buf_size s p.1)) id g.gone
        h.subs.1,
  );
  counts = (h.counts.0 ∙ sym (length-read_from id g.subs), h.counts.1, h.counts.2, h.counts.3);
}
