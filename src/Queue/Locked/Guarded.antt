-- ===== src/Queue/Locked/Guarded.antt =====
-- RDIBY/datastructures.h: the critical section `access` is owned by the thread that stands in it.
use lllsi.Base.{
  ℕ, ◌≡◌, refl, sym, ap, ◌∙◌, Bool, false, List, ◌∷◌, some, update, update_other, ◌==◌, ==_iff,
  Bool-cases, inl, inr, ◌⊎◌, arith, if◌then◌else◌,
}
use lllsi.Queue.{SemaphoreApi}
use lllsi.Threads.Sections.{SectionApi}
use lllsi.Queue.Interleaving.{waited_lem}
use lllsi.Queue.Locked.{
  Pc, push_write, push_leave, pop_read, pop_take, pop_leave, pop_failed, peek_read, peek_leave,
  peek_failed, Memory, Move, pushes, push_enters, writes, push_leaves, releases, waits, pop_enters,
  finds_empty, reads, takes, pop_leaves, pop_throws, peeks, peek_enters, peek_empty, peek_reads,
  peek_leaves, peek_throws, System, Step, pick, Reach, start, later,
}

-- Between `EnterCriticalSection` and `LeaveCriticalSection`.
abbrev pub inside : {A : Type 0} → Pc A → ℕ
inside (push_write _) = 1
inside push_leave = 1
inside pop_read = 1
inside (pop_take _) = 1
inside (pop_leave _) = 1
inside pop_failed = 1
inside peek_read = 1
inside (peek_leave _) = 1
inside peek_failed = 1
inside _ = 0

apart : (i j : ℕ) → (i == j) ≡ false → i ≡ j → ⊥
apart i j other same = ground arith

module _ (S : SemaphoreApi) (C : SectionApi) {A : Type 0} (insert : A → List A → List A) where
  -- What a line does with the section.
  data Effect (i : ℕ) (m : Memory S C insert) (p : Pc A) (t : Memory S C insert) (q : Pc A)
      : Type 0 where
    neither : t.access ≡ m.access → inside q ≡ inside p → Effect i m p t q
    comes_in :
        C.enter_section i m.access ≡ some t.access → inside p ≡ 0 → inside q ≡ 1 → Effect i m p t q
    goes_out :
        t.access ≡ C.leave_section i m.access → inside p ≡ 1 → inside q ≡ 0 → Effect i m p t q

  effect :
      {i : ℕ} {m t : Memory S C insert} {p q : Pc A} → Move S C insert i m p t q → Effect i m p t q
  effect (pushes item) = neither refl refl
  effect (push_enters e) = comes_in e refl refl
  effect writes = neither refl refl
  effect push_leaves = goes_out refl refl refl
  effect releases = neither refl refl
  effect (waits e) = neither refl refl
  effect (pop_enters e) = comes_in e refl refl
  effect (finds_empty e) = neither refl refl
  effect (reads e) = neither refl refl
  effect takes = neither refl refl
  effect pop_leaves = goes_out refl refl refl
  effect pop_throws = goes_out refl refl refl
  effect peeks = neither refl refl
  effect (peek_enters e) = comes_in e refl refl
  effect (peek_empty e) = neither refl refl
  effect (peek_reads e) = neither refl refl
  effect peek_leaves = goes_out refl refl refl
  effect peek_throws = goes_out refl refl refl

  -- Only a thread inside changes the container.
  contents :
      {i : ℕ} {m t : Memory S C insert} {p q : Pc A}
      → Move S C insert i m p t q
      → (t.shared.queue ≡ m.shared.queue) ⊎ (inside p ≡ 1)
  contents writes = inr refl
  contents takes = inr refl
  contents {m = m} (waits {q} e) =
      inl (waited_lem S insert m.shared q (S.wait m.shared.queue_semaphore) refl e).2
  contents _ = inl refl

  -- `front` was called on what is in front.
  found :
      {i : ℕ} {m t : Memory S C insert} {p q : Pc A} {item : A}
      → Move S C insert i m p t q
      → q ≡ pop_take item
      → (rest : List A) × (t.shared.queue ≡ item ∷ rest)
  found (reads {item = item} {rest} e) h = (rest, cc)
  found _ h = cc

  pub record Guarded (m : Memory S C insert) (pc : ℕ → Pc A) : Type 0 where
    pub owns : (i : ℕ) → C.depth m.access i ≡ inside (pc i)
    pub alone : (i j : ℕ) → inside (pc i) ≡ 1 → inside (pc j) ≡ 1 → i ≡ j
    pub front :
        (i : ℕ) (item : A) → pc i ≡ pop_take item → (rest : List A) × (m.shared.queue ≡ item ∷ rest)

  module _ {m : Memory S C insert} {pc : ℕ → Pc A} (g : Guarded m pc) (i : ℕ) where
    Effect-owns :
        {t : Memory S C insert} {p q : Pc A}
        → pc i ≡ p
        → Effect i m p t q
        → (j : ℕ) → C.depth t.access j ≡ inside (update pc i q j)
    Effect-owns {t} {p} {q} e (neither same flat) j = elim (Bool-cases (i == j)) [
      | inl here ↦ ground (arith, g.owns i, g.owns j, same, flat, e)
      | inr other ↦ ground (arith, g.owns j, same, flat)
    ]
    Effect-owns {t} {p} {q} e (comes_in enters out in_q) j = elim (Bool-cases (i == j)) [
      | inl here ↦ ground (arith, C.enter-own i m.access t.access enters, g.owns i, e, out, in_q)
      | inr other ↦ ground (arith, C.enter-free i j m.access t.access enters other, g.owns j)
    ]
    Effect-owns {t} {p} {q} e (goes_out leaves in_p out) j = elim (Bool-cases (i == j)) [
      | inl here ↦ ground (arith, C.leave-own i m.access, g.owns i, e, in_p, out, leaves)
      | inr other ↦ ground (arith, C.leave-others i j m.access, g.owns i, g.owns j, e, in_p, leaves)
    ]

    as_before :
        (p q : Pc A)
        → pc i ≡ p
        → inside q ≡ inside p
        → (j : ℕ) → inside (update pc i q j) ≡ inside (pc j)
    as_before p q e flat j = elim (Bool-cases (i == j)) [
      | inl here ↦
          ap (λ (b : Bool). inside (if b then q else pc j)) here
          ∙ flat
          ∙ ap inside (sym e ∙ ap pc ((==_iff i j).0 here))
      | inr other ↦ ap inside (update_other pc i j q other)
    ]

    Effect-alone :
        {t : Memory S C insert} {p q : Pc A}
        → pc i ≡ p
        → Effect i m p t q
        → (a b : ℕ) → inside (update pc i q a) ≡ 1
        → inside (update pc i q b) ≡ 1
        → a ≡ b
    Effect-alone {t} {p} {q} e (neither same flat) a b x y =
        g.alone a b (sym (as_before p q e flat a) ∙ x) (sym (as_before p q e flat b) ∙ y)
    Effect-alone {t} {p} {q} e (comes_in enters out in_q) a b x y = ground (
      arith,
      g.alone a b,
      g.owns a,
      g.owns b,
      C.enter-free i a m.access t.access enters,
      C.enter-free i b m.access t.access enters,
    )
    Effect-alone {t} {p} {q} e (goes_out leaves in_p out) a b x y =
        ground (arith, e, out, g.alone a b)

    Move-front :
        {t : Memory S C insert} {p q : Pc A}
        → pc i ≡ p
        → Move S C insert i m p t q
        → (j : ℕ) (item : A) → update pc i q j ≡ pop_take item
        → (rest : List A) × (t.shared.queue ≡ item ∷ rest)
    Move-front {t} {p} {q} e mv j item h = elim (Bool-cases (i == j)) [
      | inl here ↦ found mv (sym (ap (λ (b : Bool). if b then q else pc j) here) ∙ h)
      | inr other ↦
          let at_j : pc j ≡ pop_take item = sym (update_other pc i j q other) ∙ h in
          let (rest, before) = g.front j item at_j in
          elim (contents mv) [
            | inl same ↦ (rest, same ∙ before)
            | inr in_p ↦
                absurd (apart i j other (g.alone i j (ap inside e ∙ in_p) (ap inside at_j)))
          ]
    ]

    pub Move-Guarded :
        {t : Memory S C insert} {q : Pc A}
        → Move S C insert i m (pc i) t q
        → Guarded t (update pc i q)
    Move-Guarded mv = record {
      owns = Effect-owns refl (effect mv);
      alone = Effect-alone refl (effect mv);
      front = Move-front refl mv;
    }

  Step-Guarded :
      {n : ℕ} {s t : System S C insert}
      → Step S C insert n s t
      → Guarded s.memory s.pc
      → Guarded t.memory t.pc
  Step-Guarded (pick i lt mv) g = Move-Guarded g i mv

  pub Reach-Guarded : {n : ℕ} {s : System S C insert} → Reach S C insert n s → Guarded s.memory s.pc
  Reach-Guarded start = record {
    owns = C.depth-initialize;
    alone = λ i j x y. absurd (omega (arith, x));
    front = λ i item h. cc;
  }
  Reach-Guarded (later r st) = Step-Guarded st (Reach-Guarded r)

  -- However the lines of the threads of a queue interleave, two threads are never both between
  -- `EnterCriticalSection` and `LeaveCriticalSection`, and what `front` has given is in front until
  -- the same thread removes it.
  pub Reach-alone :
      {n : ℕ} {s : System S C insert}
      → Reach S C insert n s
      → ((i j : ℕ) → inside (s.pc i) ≡ 1 → inside (s.pc j) ≡ 1 → i ≡ j)
        × ((i : ℕ) (item : A)
            → s.pc i ≡ pop_take item
            → (rest : List A) × (s.memory.shared.queue ≡ item ∷ rest))
  Reach-alone r = ((Reach-Guarded r).alone, (Reach-Guarded r).front)
