-- ===== src/Job/Queue/Refine.antt =====
-- The linked queue implements a first-in first-out list.
use open_shmem_csci.Base.{
  ℕ, ◌≡◌, ◌≢◌, ◌∙◌, refl, sym, ap, Option, none, some, List, [], ◌∷◌, ◌++◌, arith, ◌==◌, ne→==,
}
use open_shmem_csci.Base.Run.{ok, Returns}
use open_shmem_csci.Memory.Store.{null}
use open_shmem_csci.Job.Queue.{QueueNode, Queue, node, put_node, get_node, new_queue, enqueue}

-- the items of a queue: the address and the job of each node
abbrev pub Items {ℓ} : Type ℓ → Type ℓ
Items A = List (ℕ × A)

module _ {ℓ} {A : Type ℓ} where
  abbrev pub first : Items A → ℕ
  first [] = null
  first ((p, a) ∷ xs) = p

  abbrev pub Avoids : ℕ → Items A → Type 0
  Avoids p [] = Unit
  Avoids p ((q, a) ∷ xs) = (q ≢ p) × Avoids p xs

  -- the `next` pointers lead through the items, at different addresses, to NULL
  abbrev pub Linked : (ℕ → Option (QueueNode A)) → Items A → Type ℓ
  Linked nodes [] = Unit
  Linked nodes ((p, a) ∷ xs) =
      (p ≢ null) × (nodes p ≡ some (node a (first xs))) × Avoids p xs × Linked nodes xs

  -- the tail pointer is read only where there is a last item
  abbrev pub EndsAt : ℕ → Items A → Type 0
  EndsAt tail [] = Unit
  EndsAt tail ((p, a) ∷ []) = tail ≡ p
  EndsAt tail (x ∷ y ∷ xs) = EndsAt tail (y ∷ xs)

  pub record IsQueue (q : Queue A) (xs : Items A) : Type ℓ where
    pub linked : Linked q.nodes xs
    pub at_head : q.head ≡ first xs
    pub at_tail : EndsAt q.tail xs

  -- the jobs alone, in order
  abbrev pub jobs : Items A → List A
  jobs [] = []
  jobs ((p, a) ∷ xs) = a ∷ jobs xs

  pub jobs-append : (xs ys : Items A) → jobs (xs ++ ys) ≡ jobs xs ++ jobs ys
  jobs-append [] ys = refl
  jobs-append ((p, a) ∷ xs) ys = ap (λ t. a ∷ t) (jobs-append xs ys)

  pub Linked-put_node :
      (nodes : ℕ → Option (QueueNode A)) (p : ℕ) (n : Option (QueueNode A)) (xs : Items A)
      → Avoids p xs
      → Linked nodes xs
      → Linked (put_node nodes p n) xs
  unfolding put_node
  Linked-put_node nodes p n [] a h = tt
  Linked-put_node nodes p n ((q, x) ∷ xs) a h =
      (h.0, ground arith, h.2, Linked-put_node nodes p n xs a.1 h.3)

  Linked-Avoids :
      (nodes : ℕ → Option (QueueNode A)) (p : ℕ) (xs : Items A)
      → nodes p ≡ none
      → Linked nodes xs
      → Avoids p xs
  Linked-Avoids nodes p [] e h = tt
  Linked-Avoids nodes p ((q, x) ∷ xs) e h =
      (λ (same : q ≡ p). cc (ap nodes same, e, h.1), Linked-Avoids nodes p xs e h.3)

  pub put_node_self :
      (nodes : ℕ → Option (QueueNode A)) (p : ℕ) (n : Option (QueueNode A))
      → put_node nodes p n p ≡ n
  unfolding put_node
  put_node_self nodes p n = ground arith

  pub new_queue-IsQueue : (nodes : ℕ → Option (QueueNode A)) → IsQueue (new_queue nodes) []
  unfolding new_queue
  new_queue-IsQueue nodes = record { linked = tt; at_head = refl; at_tail = tt }

  EndsAt-ne : (t p : ℕ) (x : ℕ × A) (xs : Items A) → EndsAt t (x ∷ xs) → Avoids p (x ∷ xs) → t ≢ p
  EndsAt-ne t p (q, a) [] e h = λ s. h.0 (sym e ∙ s)
  EndsAt-ne t p (q, a) (y ∷ xs) e h = EndsAt-ne t p y xs e h.1

  module _ (nodes : ℕ → Option (QueueNode A)) (t fresh : ℕ) (a : A) (ne : fresh ≢ null) where
    abbrev behind_last : A → ℕ → Option (QueueNode A)
    behind_last last =
        put_node (put_node nodes t (some (node last fresh))) fresh (some (node a null))

    -- the last item's node, and the queue with a new node linked behind it
    record IsExtended (xs : Items A) : Type ℓ where
      last : A
      ne_null : t ≢ null
      holds : nodes t ≡ some (node last null)
      linked : Linked (behind_last last) (xs ++ (fresh, a) ∷ [])

    put_self : (last : A) → t ≢ fresh → behind_last last t ≡ some (node last fresh)
    unfolding put_node
    put_self last h = ground arith

    put_fresh : (last : A) → behind_last last fresh ≡ some (node a null)
    unfolding put_node
    put_fresh last = ground arith

    put_other : (last : A) (q : ℕ) → q ≢ t → q ≢ fresh → behind_last last q ≡ nodes q
    unfolding put_node
    put_other last q h k = ground arith

    Avoids-append :
        (p : ℕ) (xs : Items A) → Avoids p xs → fresh ≢ p → Avoids p (xs ++ (fresh, a) ∷ [])
    Avoids-append p [] h k = (k, tt)
    Avoids-append p (x ∷ xs) h k = (h.0, Avoids-append p xs h.1 k)

    extend :
        (x : ℕ × A) (xs : Items A)
        → Linked nodes (x ∷ xs)
        → EndsAt t (x ∷ xs)
        → Avoids fresh (x ∷ xs)
        → IsExtended (x ∷ xs)
    extend (p, b) [] l e h =
        let apart : t ≢ fresh = λ s. h.0 (sym e ∙ s) in
        record {
          last = b;
          ne_null = λ z. l.0 (sym e ∙ z);
          holds = ap nodes e ∙ l.1;
          linked = (
            l.0,
            ap (behind_last b) (sym e) ∙ put_self b apart,
            (λ s. h.0 (sym s), tt),
            (ne, put_fresh b, tt, tt),
          );
        }
    extend (p, b) (y ∷ ys) l e h =
        let r = extend y ys l.3 e h.1 in
        let apart = EndsAt-ne t p y ys e l.2 in
        record {
          last = r.last;
          ne_null = r.ne_null;
          holds = r.holds;
          linked = (
            l.0,
            put_other r.last p (λ s. apart (sym s)) h.0 ∙ l.1,
            Avoids-append p (y ∷ ys) l.2 (λ s. h.0 (sym s)),
            r.linked,
          );
        }

  EndsAt-append :
      (fresh : ℕ) (a : A) (x : ℕ × A) (xs : Items A) → EndsAt fresh (x ∷ xs ++ (fresh, a) ∷ [])
  EndsAt-append fresh a x [] = refl
  EndsAt-append fresh a x (y ∷ xs) = EndsAt-append fresh a y xs

  -- On a linked queue, `enqueue` of a job at a new address that is not NULL does not fault, and
  -- leaves a linked queue with the job behind the others.
  pub enqueue-append :
      {q : Queue A} {xs : Items A} (fresh : ℕ) (a : A)
      → IsQueue q xs
      → fresh ≢ null
      → q.nodes fresh ≡ none
      → Returns (enqueue fresh a q) (λ q'. IsQueue q' (xs ++ (fresh, a) ∷ []))
  unfolding enqueue
  enqueue-append {q} {xs = []} fresh a is ne unused = (
    record { head = fresh; tail = fresh; nodes = put_node q.nodes fresh (some (node a null)) },
    rw (ap (λ n. n == null) is.at_head),
    record {
      linked = (ne, put_node_self q.nodes fresh (some (node a null)), tt, tt);
      at_head = refl;
      at_tail = refl;
    },
  )
  enqueue-append {q} {xs = (p, b) ∷ xs} fresh a is ne unused =
      let avoids = Linked-Avoids q.nodes fresh ((p, b) ∷ xs) unused is.linked in
      let r = extend q.nodes q.tail fresh a ne (p, b) xs is.linked is.at_tail avoids in
      (
        record {
          head = q.head;
          tail = fresh;
          nodes = behind_last q.nodes q.tail fresh a ne r.last;
        },
        rw (
          ap (λ n. n == null) is.at_head ∙ ne→== p null is.linked.0,
          ne→== q.tail null r.ne_null,
          r.holds,
        ),
        record {
          linked = r.linked;
          at_head = is.at_head;
          at_tail = EndsAt-append fresh a (p, b) xs;
        },
      )

-- an address with no node, other than the new one's, has none after `enqueue`
pub enqueue-unused :
    {A : Type 0} (q q' : Queue A) (fresh p : ℕ) (a : A)
    → enqueue fresh a q ≡ ok q'
    → p ≢ fresh
    → q.nodes p ≡ none
    → q'.nodes p ≡ none
unfolding enqueue get_node put_node
enqueue-unused q q' fresh p a e ne unused = ground arith
