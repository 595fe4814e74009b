-- ===== src/Storage/Descriptors/Pool.antt =====
-- The kept descriptors of act_storage.c as a list: the one that was put back first is the next.
use act.Common.{
  ℕ, zero, suc, ◌-◌, ◌^◌, ◌<◌, ◌≡◌, ◌⊎◌, inl, inr, refl, sym, ap, ◌∙◌, subst, arith, Option, some,
  List, [], ◌∷◌, ◌++◌, map,
}
use act.Common.Lists.{length}
use act.Common.Int.{pos}
use act.Common.Partial.{◌>>=◌}
use act.Common.Memory.{Block, Heap, Allocates, slice}
use act.Queue.{Queue, Status, ok, empty, queue_pop, PopResult, returns}
use act.Queue.Inv.{Inv, IsValid, contents, contents_lem, length-window}
use act.Queue.Pop.{
  Popped, popped, found_empty, timed_out, waiting, unset_limit, Took, took, SameShape, FirstHeld,
  first, later, queue_pop-Popped, waits_by, waits_by-no_wait,
}
use act.Queue.Push.{Pushed, added, kept, dropped, CanGrow, IsFull, queue_push-Pushed}
use act.Storage.Descriptors.{int_bytes, int_of, fd_get, got, fd_put, fd_close_all, closing}

-- The descriptors that are kept, oldest first.
abbrev pub pool : Queue → List ℕ
pool q = map int_of (contents q)

-- A pop that does not wait, of a queue in one state.
data NextFd (s : Queue) : PopResult → Type 0 where
  next :
      (ele : List ℕ) (q : Queue)
      → IsValid q
      → SameShape s q
      → contents s ≡ ele ∷ contents q
      → NextFd s (returns ok ele q)
  none_left : contents s ≡ [] → NextFd s (returns empty [] s)

no_state : {s : Queue} → FirstHeld s [] → ⊥
no_state m = elim m [ ]

pop-NextFd : (q : Queue) → IsValid q → NextFd q (queue_pop q (pos 0) [])
pop-NextFd q v = by_popped (queue_pop-Popped q (pos 0) [] (v, tt))
  where
    by_took : {s : Queue} {r : PopResult} → s ≡ q → Took s r → NextFd q r
    by_took e (took ele q' v' h c) =
        next ele q' v' (subst (λ t. SameShape t q') e h) (ap contents (sym e) ∙ c)

    by_popped : {r : PopResult} → Popped (waits_by q (pos 0)) q [] r → NextFd q r
    by_popped (popped s (first e) t) = by_took e t
    by_popped (popped s (later c m) t) = absurd (no_state m)
    by_popped (found_empty w c) = none_left c
    by_popped (timed_out q' more w e c c') = absurd (let waits = waits_by-no_wait q in cc)
    by_popped (waiting e (inl w)) = absurd (let waits = waits_by-no_wait q in cc)
    by_popped (waiting e (inr w)) = absurd (let waits = waits_by-no_wait q in let w' = w.0 in cc)
    by_popped (unset_limit w c) = absurd (let waits = waits_by-no_wait q in cc)

int_of-int_bytes : (n : ℕ) → n < 2 ^ 32 → int_of (slice (int_bytes n) 0 4) ≡ n
int_of-int_bytes n h = omega arith

map-++ :
    {A B : Type 0} (f : A → B) (xs : List A) (y : A)
    → map f (xs ++ (y ∷ [])) ≡ map f xs ++ (f y ∷ [])
map-++ f [] y = refl
map-++ f (x ∷ xs) y = ap (◌∷◌ (f x)) (map-++ f xs y)

length-map : {A B : Type 0} (f : A → B) (xs : List A) → length (map f xs) ≡ length xs
length-map f [] = refl
length-map f (x ∷ xs) = ap suc (length-map f xs)

length-pool : {q : Queue} {b : Block} → Inv q b → length (pool q) ≡ q.write_offset - q.read_offset
length-pool {q} {b} v =
    length-map int_of (contents q)
    ∙ ap length (contents_lem q v.held)
    ∙ length-window b.bytes q.alloc_sz q.ele_size q.read_offset (q.write_offset - q.read_offset)

-- A queue with a free slot.
abbrev pub HasRoom : Queue → Type 0
HasRoom q = length (pool q) < q.alloc_sz

not_full_lem : {q : Queue} → IsValid q → HasRoom q → ¬ (IsFull q)
not_full_lem (b, v) room full = omega (arith, length-pool v, room, full)

-- A queue from which a descriptor was taken, and one that keeps none, have a free slot.
pub taken-HasRoom :
    (opened fd : ℕ) (q q' : Queue)
    → IsValid q
    → SameShape q q'
    → ((pool q ≡ []) × (q' ≡ q) × (fd ≡ opened)) ⊎ (pool q ≡ fd ∷ pool q')
    → HasRoom q'
taken-HasRoom opened fd q q' (b, v) shape (inl (e, same, _)) =
    omega (arith, ap length e, ap (λ t. length (pool t)) same, shape.0, v.some_slots)
taken-HasRoom opened fd q q' (b, v) shape (inr e) =
    omega (arith, ap length e, shape.0, length-pool v, v.fits, v.ordered)

-- `fd_get` takes the descriptor that has been kept longest, and opens the device only when none is
-- kept.
pub fd_get-pool :
    (q : Queue) (opened : ℕ)
    → IsValid q
    → (fd : ℕ) × (q' : Queue) × (fd_get q opened ≡ some (fd, q'))
      × IsValid q'
      × SameShape q q'
      × (((pool q ≡ []) × (q' ≡ q) × (fd ≡ opened)) ⊎ (pool q ≡ fd ∷ pool q'))
unfolding fd_get
fd_get-pool q opened v = by_next (pop-NextFd q v)
  where
    by_next :
        {r : PopResult}
        → NextFd q r
        → (fd : ℕ) × (q' : Queue) × (got opened r ≡ some (fd, q'))
          × IsValid q'
          × SameShape q q'
          × (((pool q ≡ []) × (q' ≡ q) × (fd ≡ opened)) ⊎ (pool q ≡ fd ∷ pool q'))
    by_next (next ele q' v' h c) = (int_of ele, q', refl, v', h, inr (ap (map int_of) c))
    by_next (none_left c) = (opened, q, refl, v, (refl, refl), inl (ap (map int_of) c, refl, refl))

-- `fd_put` keeps a descriptor behind the others. Only a full queue that cannot be enlarged loses it.
pub fd_put-pool :
    (heap : Heap) (q : Queue) (fd : ℕ)
    → Allocates heap
    → IsValid q
    → CanGrow q
    → q.ele_size ≡ 4
    → fd < 2 ^ 32
    → HasRoom q
    → (q' : Queue) × (fd_put heap q fd ≡ some q') × IsValid q' × (pool q' ≡ pool q ++ (fd ∷ []))
unfolding fd_put
fd_put-pool heap q fd laws v can four small room =
    by_pushed (queue_push-Pushed heap q (int_bytes fd) laws v can)
  where
    same : int_of (slice (int_bytes fd) 0 q.ele_size) ≡ fd
    same = ap (λ n. int_of (slice (int_bytes fd) 0 n)) four ∙ int_of-int_bytes fd small

    by_pushed :
        {r : Option (Status × Queue)}
        → Pushed heap q (int_bytes fd) r
        → (q' : Queue) × ((r >>= (λ p. some p.1)) ≡ some q')
          × IsValid q'
          × (pool q' ≡ pool q ++ (fd ∷ []))
    by_pushed (added q' v' c) = (
      q',
      refl,
      v',
      ap (map int_of) c ∙ map-++ int_of (contents q) _ ∙ ap (λ n. pool q ++ (n ∷ [])) same,
    )
    by_pushed (kept full _ _) = absurd (not_full_lem v room full)
    by_pushed (dropped full _ _) = absurd (not_full_lem v room full)

-- `fd_close_all` closes every kept descriptor, in the order in which they were put back.
pub fd_close_all-pool :
    (fuel : ℕ) (q : Queue)
    → IsValid q
    → length (contents q) < fuel
    → fd_close_all fuel q ≡ some (pool q)
unfolding fd_close_all
fd_close_all-pool zero q v h = absurd (omega arith)
fd_close_all-pool (suc fuel) q v h =
    by_next (λ q' v' l. fd_close_all-pool fuel q' v' l) (pop-NextFd q v)
  where
    shorter :
        (ele : List ℕ) (q' : Queue) → contents q ≡ ele ∷ contents q' → length (contents q') < fuel
    shorter ele q' c = omega (arith, ap length c)

    by_next :
        {r : PopResult}
        → ((q' : Queue)
            → IsValid q'
            → length (contents q') < fuel
            → fd_close_all fuel q' ≡ some (pool q'))
        → NextFd q r
        → closing (λ q'. fd_close_all fuel q') r ≡ some (pool q)
    by_next ih (next ele q' v' h c) =
        rw (ih q' v' (shorter ele q' c)) (ap (λ l. some (map int_of l)) (sym c))
    by_next ih (none_left c) = ap (λ l. some (map int_of l)) (sym c)
