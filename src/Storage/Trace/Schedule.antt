-- ===== src/Storage/Trace/Schedule.antt =====
-- Interleavings that can be run: a schedule names, turn by turn, the program that makes its next
-- call. A turn of a program that has ended, or of none, changes nothing. No create raises.
use open_devops_agent.Prelude.{ℕ, zero, suc, ◌≡◌, refl, ap, List, [], ◌∷◌, ◌⊎◌, inl, inr}
use open_devops_agent.Storage.Memory
use open_devops_agent.Storage.Memory.{Objects}
use open_devops_agent.Storage.Program.{
  Program, done, fail, get_then, put_then, create_then, delete_then, consume_then, exists_then,
  list_then, now_then, outcome, World,
}
use open_devops_agent.Storage.Trace.{
  gets, puts, creates, deletes, consumes, tests, lists, reads_clock, Step, first, later, Reach,
  here, next,
}

abbrev pub with_objects : {V : Type 0} → World V → Objects V → World V
with_objects w m = record w { objects = m }

module _ {V A : Type 0} where
  -- One call.
  abbrev pub advance : Program V A → World V → Program V A × World V
  advance (done a) w = (done a, w)
  advance (fail e) w = (fail e, w)
  advance (get_then k f) w = (f (Memory.get k w.objects), w)
  advance (put_then k v f) w = (f, with_objects w (Memory.put k v w.objects))
  advance (create_then k v f) w = (
    f (outcome (Memory.put_if_absent k v w.objects).0),
    with_objects w (Memory.put_if_absent k v w.objects).1,
  )
  advance (delete_then k f) w =
      (f (Memory.delete k w.objects).0, with_objects w (Memory.delete k w.objects).1)
  advance (consume_then k test f) w =
      (f (Memory.consume k test w.objects).0, with_objects w (Memory.consume k test w.objects).1)
  advance (exists_then k f) w = (f (Memory.exists k w.objects), w)
  advance (list_then p f) w = (f (Memory.list_keys p w.objects), w)
  advance (now_then f) w = (f (w.clock w.reads), record w { reads = suc w.reads })

  abbrev pub turn : ℕ → List (Program V A) → World V → List (Program V A) × World V
  turn i [] w = ([], w)
  turn zero (p ∷ ps) w = ((advance p w).0 ∷ ps, (advance p w).1)
  turn (suc i) (p ∷ ps) w = (p ∷ (turn i ps w).0, (turn i ps w).1)

  unfoldable pub play : List ℕ → List (Program V A) → World V → List (Program V A) × World V
  play [] ps w = (ps, w)
  play (i ∷ is) ps w = play is (turn i ps w).0 (turn i ps w).1

  -- A turn is a step, or leaves the programs and the objects as they are.
  abbrev Turned : List (Program V A) → World V → List (Program V A) × World V → Type 0
  Turned ps w (qs, w') = Step ps w.objects qs w'.objects ⊎ ((qs ≡ ps) × (w'.objects ≡ w.objects))

  Turned-advance :
      (p : Program V A) (ps : List (Program V A)) (w : World V)
      → Turned (p ∷ ps) w ((advance p w).0 ∷ ps, (advance p w).1)
  Turned-advance (done a) ps w = inr (refl, refl)
  Turned-advance (fail e) ps w = inr (refl, refl)
  Turned-advance (get_then k f) ps w = inl (first (gets k f w.objects))
  Turned-advance (put_then k v f) ps w = inl (first (puts k v f w.objects))
  Turned-advance (create_then k v f) ps w = inl (first (creates k v f w.objects))
  Turned-advance (delete_then k f) ps w = inl (first (deletes k f w.objects))
  Turned-advance (consume_then k test f) ps w = inl (first (consumes k test f w.objects))
  Turned-advance (exists_then k f) ps w = inl (first (tests k f w.objects))
  Turned-advance (list_then p f) ps w = inl (first (lists p f w.objects))
  Turned-advance (now_then f) ps w = inl (first (reads_clock (w.clock w.reads) f w.objects))

  Turned-turn : (i : ℕ) (ps : List (Program V A)) (w : World V) → Turned ps w (turn i ps w)
  Turned-turn zero [] w = inr (refl, refl)
  Turned-turn (suc i) [] w = inr (refl, refl)
  Turned-turn zero (p ∷ ps) w = Turned-advance p ps w
  Turned-turn (suc i) (p ∷ ps) w = elim (Turned-turn i ps w) [
    | inl step ↦ inl (later step)
    | inr (same, still) ↦ inr (ap (λ qs. p ∷ qs) same, still)
  ]

  Reach-turn :
      {ps : List (Program V A)} {m : Objects V} (i : ℕ) (qs : List (Program V A)) (w : World V)
      → Reach ps m qs w.objects
      → Reach ps m (turn i qs w).0 (turn i qs w).1.objects
  Reach-turn i qs w r = elim (Turned-turn i qs w) [
    | inl step ↦ next r step
    | inr (same, still) ↦ rw (same, still) r
  ]

  play_on :
      {ps : List (Program V A)} {m : Objects V} (order : List ℕ) (qs : List (Program V A))
      (w : World V)
      → Reach ps m qs w.objects
      → Reach ps m (play order qs w).0 (play order qs w).1.objects
  unfolding play
  play_on [] qs w r = r
  play_on (i ∷ order) qs w r = play_on order (turn i qs w).0 (turn i qs w).1 (Reach-turn i qs w r)

  -- What a schedule comes to is reached by steps.
  pub Reach-play :
      (order : List ℕ) (ps : List (Program V A)) (w : World V)
      → Reach ps w.objects (play order ps w).0 (play order ps w).1.objects
  Reach-play order ps w = play_on order ps w here
