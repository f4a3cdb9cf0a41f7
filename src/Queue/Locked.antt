-- ===== src/Queue/Locked.antt =====
-- RDIBY/datastructures.h: `Push`, `Pop` and `Peek` line by line, with the critical section `access`.
-- A thread takes one line at a time; between two lines any other thread may go on.
pub mod Guarded
pub mod Atomic
pub mod Progress
use lllsi.Base.{ℕ, ◌+◌, ◌<◌, ◌≡◌, List, [], ◌∷◌, Option, some, ok, update}
use lllsi.Queue.{SemaphoreApi, ThreadSafeQueue, new_queue, enqueue, release, wait_item, infinite}
use lllsi.Threads.Sections.{SectionApi}

-- Where a thread stands, with the local variable that is live there.
pub data Pc (A : Type 0) : Type 0 where
  idle : Pc A
  push_enter : (item : A) → Pc A  -- `Push`, before the section
  push_write : (item : A) → Pc A
  push_leave : Pc A
  push_release : Pc A  -- before `ReleaseSemaphore`
  pop_enter : Pc A  -- `Pop`, behind the wait
  pop_read : Pc A
  pop_take : (item : A) → Pc A  -- between `front` and `pop`
  pop_leave : (item : A) → Pc A
  pop_failed : Pc A  -- before "empty queue" is thrown
  peek_enter : Pc A
  peek_read : Pc A
  peek_leave : (item : A) → Pc A
  peek_failed : Pc A

-- `queue.pop()` of the container.
abbrev pub rest_of : {A : Type 0} → List A → List A
rest_of [] = []
rest_of (item ∷ rest) = rest

module _ (S : SemaphoreApi) (C : SectionApi) {A : Type 0} (insert : A → List A → List A) where
  pub record Memory : Type 0 where
    pub shared : ThreadSafeQueue S A
    pub access : C.Section

  abbrev pub remove_front : ThreadSafeQueue S A → ThreadSafeQueue S A
  remove_front q = record q { queue = rest_of q.queue }

  abbrev pub left : ℕ → Memory → Memory
  left i m = record m { access = C.leave_section i m.access }

  -- A line of thread `i`.
  pub data Move (i : ℕ) (m : Memory) : Pc A → Memory → Pc A → Type 0 where
    pushes : (item : A) → Move i m idle m (push_enter item)
    push_enters :
        {item : A} {x : C.Section}
        → C.enter_section i m.access ≡ some x
        → Move i m (push_enter item) (record m { access = x }) (push_write item)
    writes :
        {item : A}
        → Move i m
            (push_write item)
            (record m { shared = enqueue S insert item m.shared })
            push_leave
    push_leaves : Move i m push_leave (left i m) push_release
    releases : Move i m push_release (record m { shared = release S m.shared }) idle
    waits :
        {q : ThreadSafeQueue S A}
        → wait_item S infinite m.shared ≡ ok q
        → Move i m idle (record m { shared = q }) pop_enter
    pop_enters :
        {x : C.Section}
        → C.enter_section i m.access ≡ some x
        → Move i m pop_enter (record m { access = x }) pop_read
    finds_empty : m.shared.queue ≡ [] → Move i m pop_read m pop_failed
    reads :
        {item : A} {rest : List A}
        → m.shared.queue ≡ item ∷ rest
        → Move i m pop_read m (pop_take item)
    takes :
        {item : A}
        → Move i m (pop_take item) (record m { shared = remove_front m.shared }) (pop_leave item)
    pop_leaves : {item : A} → Move i m (pop_leave item) (left i m) idle
    pop_throws : Move i m pop_failed (left i m) idle
    peeks : Move i m idle m peek_enter
    peek_enters :
        {x : C.Section}
        → C.enter_section i m.access ≡ some x
        → Move i m peek_enter (record m { access = x }) peek_read
    peek_empty : m.shared.queue ≡ [] → Move i m peek_read m peek_failed
    peek_reads :
        {item : A} {rest : List A}
        → m.shared.queue ≡ item ∷ rest
        → Move i m peek_read m (peek_leave item)
    peek_leaves : {item : A} → Move i m (peek_leave item) (left i m) idle
    peek_throws : Move i m peek_failed (left i m) idle

  pub record System : Type 0 where
    pub memory : Memory
    pub pc : ℕ → Pc A

  abbrev pub unused : System
  unused = record {
    memory = record { shared = new_queue S; access = C.initialize };
    pc = λ _. idle;
  }

  -- `n` threads over one queue, in any order.
  pub data Step (n : ℕ) (s : System) : System → Type 0 where
    pick :
        (i : ℕ) {m : Memory} {p : Pc A}
        → i < n
        → Move i s.memory (s.pc i) m p
        → Step n s (record { memory = m; pc = update s.pc i p })

  pub data Reach (n : ℕ) : System → Type 0 where
    start : Reach n unused
    later : {s t : System} → Reach n s → Step n s t → Reach n t
