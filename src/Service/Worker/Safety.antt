-- ===== src/Service/Worker/Safety.antt =====
-- Actions of worker.py that touch only the claim of one message of the in-memory queue, and how such
-- actions are put together.
-- Only the claim of this message may have gone, and nothing new is ready.
use headless_blender_charact.Prelude.{
  Bool, String, [], arith, false, if◌then◌else◌, nat_eq, refl, string_eq, true, ◌+◌, ◌==◌, ◌∙◌, ◌∷◌,
  ◌≡◌,
}
use headless_blender_charact.Service.Worker.Action.{
  Act, World, after_try, carry, on_outside, on_queue, on_repository, raises, returns, ◌>>=◌, ◌>>◌,
}
use headless_blender_charact.Service.Worker.Supervisor.{ignore}
use headless_blender_charact.Service.Errors.{Error, Result, err, ok}
use headless_blender_charact.Service.Contract.{list_eq}
use headless_blender_charact.Service.Dict.{Dict, lookup, remove}
use headless_blender_charact.Service.Queue.Message.{QueueMessage, check_message}
use headless_blender_charact.Service.Queue.Memory.{
  MemoryQueue, acknowledge, after_message, append_bounded, dead_letter, receipt_of, release,
  with_message,
}

pub record Settles (m : QueueMessage) (q t : MemoryQueue) : Type 0 where
  pub ready : t.ready ≡ q.ready
  pub others : (k : String) → (m.receipt == k) ≡ false → lookup k t.claimed ≡ lookup k q.claimed

lookup-remove_other :
    (k j : String) (d : Dict String QueueMessage)
    → (k == j) ≡ false
    → lookup j (remove k d) ≡ lookup j d
unfolding lookup remove
lookup-remove_other k j [] h = refl
lookup-remove_other k j ((i, w) ∷ d) h = ground (
  arith,
  string_eq.beq_iff k j,
  string_eq.beq_iff i k,
  string_eq.beq_iff i j,
  lookup-remove_other k j d h,
)

module _ (m : QueueMessage) where
  pub Settles-refl : (q : MemoryQueue) → Settles m q q
  Settles-refl q = record { ready = refl; others = λ k h. refl }

  pub Settles-trans : {p q r : MemoryQueue} → Settles m p q → Settles m q r → Settles m p r
  Settles-trans x y = record {
    ready = y.ready ∙ x.ready;
    others = λ k h. y.others k h ∙ x.others k h;
  }

  release-Settles : (q : MemoryQueue) → Settles m q (release m q)
  unfolding release
  release-Settles q = record {
    ready = refl;
    others = λ k h. lookup-remove_other m.receipt k q.claimed h;
  }

  dead_letter-Settles : (q : MemoryQueue) → Settles m q (dead_letter m q).1
  unfolding dead_letter with_message after_message release
  dead_letter-Settles q =
      go (check_message (record { build_id = m.build_id; receipt = receipt_of q.next }))
    where
      bury : MemoryQueue → QueueMessage → MemoryQueue
      bury t d = record t { dead = append_bounded t.dead_letter_max_entries t.dead d }

      go :
          (r : Result QueueMessage)
          → Settles m q
              (after_message
                (record (release m q) { next = (release m q).next + 1 })
                (receipt_of q.next)
                bury
                r).1
      go (ok d) = let s = release-Settles q in record { ready = s.ready; others = s.others }
      go (err e) = let s = release-Settles q in record { ready = s.ready; others = s.others }

  module _ {R O : Type 0} where
    pub record IsSafe {A : Type 0} (k : Act (World R MemoryQueue O) A) : Type 0 where
      pub safe : (v : World R MemoryQueue O) → Settles m v.queue (k v).1.queue

    pub returns-IsSafe : {A : Type 0} (a : A) → IsSafe (returns {V = World R MemoryQueue O} a)
    returns-IsSafe a = record { safe = λ v. Settles-refl v.queue }

    pub raises-IsSafe :
        {A : Type 0} (e : Error) → IsSafe (raises {V = World R MemoryQueue O} {A = A} e)
    raises-IsSafe e = record { safe = λ v. Settles-refl v.queue }

    pub bind-IsSafe :
        {A B : Type 0} (k : Act (World R MemoryQueue O) A) (f : A → Act (World R MemoryQueue O) B)
        → IsSafe k
        → ((a : A) → IsSafe (f a))
        → IsSafe (k >>= f)
    bind-IsSafe {A} {B} k f x y = record {
      safe = λ v. Settles-trans (x.safe v) (go (k v).0 (k v).1);
    }
      where
        go :
            (r : Result A) (t : World R MemoryQueue O)
            → Settles m t.queue (carry {B = B} r f t).1.queue
        go (ok a) t = (y a).safe t
        go (err e) t = Settles-refl t.queue

    pub then-IsSafe :
        {B : Type 0} (k : Act (World R MemoryQueue O) (Unit {0}))
        (f : Act (World R MemoryQueue O) B)
        → IsSafe k
        → IsSafe f
        → IsSafe (k >> f)
    then-IsSafe k f x y = bind-IsSafe k (λ _. f) x (λ _. y)

    pub after_try-IsSafe :
        {A B : Type 0} (k : Act (World R MemoryQueue O) A)
        (f : Result A → Act (World R MemoryQueue O) B)
        → IsSafe k
        → ((r : Result A) → IsSafe (f r))
        → IsSafe (after_try k f)
    after_try-IsSafe k f x y = record {
      safe = λ v. Settles-trans (x.safe v) ((y (k v).0).safe (k v).1);
    }

    pub choice-IsSafe :
        {A : Type 0} (b : Bool) (k l : Act (World R MemoryQueue O) A)
        → IsSafe k
        → IsSafe l
        → IsSafe (if b then k else l)
    choice-IsSafe true k l x y = x
    choice-IsSafe false k l x y = y

    pub on_repository-IsSafe :
        {A : Type 0} (k : Act R A) → IsSafe (on_repository {W = MemoryQueue} k)
    on_repository-IsSafe k = record { safe = λ v. Settles-refl v.queue }

    pub on_outside-IsSafe :
        {A : Type 0} (k : Act O A) → IsSafe (on_outside {R = R} {W = MemoryQueue} k)
    on_outside-IsSafe k = record { safe = λ v. Settles-refl v.queue }

    pub acknowledge-IsSafe : IsSafe (on_queue {R = R} {O = O} (acknowledge m))
    unfolding acknowledge
    acknowledge-IsSafe = record { safe = λ v. release-Settles v.queue }

    ignore-IsSafe :
        {A : Type 0} (k : Act MemoryQueue A)
        → ((q : MemoryQueue) → Settles m q (k q).1)
        → IsSafe (on_queue {R = R} {O = O} (ignore k))
    ignore-IsSafe {A} k x = record {
      safe = λ v. go (k v.queue).0 v.queue (k v.queue).1 (x v.queue);
    }
      where
        go :
            (r : Result A) (q t : MemoryQueue)
            → Settles m q t
            → Settles m q (carry r (λ _. returns {A = Unit {0}} tt) t).1
        go (ok a) q t y = y
        go (err e) q t y = y

    pub dead_letter-IsSafe : IsSafe (on_queue {R = R} {O = O} (ignore (dead_letter m)))
    dead_letter-IsSafe = ignore-IsSafe (dead_letter m) dead_letter-Settles
