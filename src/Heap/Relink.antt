-- ===== src/Heap/Relink.antt =====
-- One pointer of a linked queue is written: the `next` of its last cell, or the `prev` of its first.
use lobsimulater.Base.{◌≡◌, refl, ◌∙◌, ap, [], ◌∷◌, some, false, ◌==◌, arith, ◌>>=◌}
use lobsimulater.Types.{Order}
use lobsimulater.Heap.{Ptr, null, Cell, cell, Heap, write, update}
use lobsimulater.Heap.Linked.{
  Cells, has, first, last, Linked, Linked-write, load-ok, write_here, write_away,
}

pub update-ok :
    (p : Ptr) (f : Cell → Cell) (h : Heap) (c : Cell)
    → (p == null) ≡ false
    → h p ≡ some c
    → update p f h ≡ some (write h p (f c))
update-ok p f h c ok here =
    ap (λ x. x >>= λ (d : Cell). some (write h p (f d))) (load-ok p h c ok here)

-- What a change of one queue's pointers leaves alone.
abbrev pub SameOutside : Cells → Heap → Heap → Type 0
SameOutside xs h g = (a : Ptr) → has a xs ≡ false → g a ≡ h a

last_ok :
    (h : Heap) (this before after p : Ptr) (o : Order) (xs : Cells)
    → Linked h this before ((p, o) ∷ xs) after
    → (last p xs == null) ≡ false
last_ok h this before after p o [] v = v.1
last_ok h this before after p o ((q, r) ∷ xs) v = last_ok h this p after q r xs v.3

pub relink_last :
    (h : Heap) (this before after after' p : Ptr) (o : Order) (xs : Cells)
    → Linked h this before ((p, o) ∷ xs) after
    → (h' : Heap) × (update (last p xs) (λ c. record c { next = after' }) h ≡ some h')
      × Linked h' this before ((p, o) ∷ xs) after'
      × SameOutside ((p, o) ∷ xs) h h'
relink_last h this before after after' p o [] (here, ok, out, v) =
    let h' : Heap = write h p (cell o before after' this) in
    (
      h',
      update-ok p (λ c. record c { next = after' }) h (cell o before after this) ok here,
      (write_here h p (cell o before after' this), ok, refl, tt),
      λ a off. write_away h p a (cell o before after' this) (ground arith),
    )
relink_last h this before after after' p o ((q, r) ∷ xs) (here, ok, out, v) =
    let (h', done, w, same) = relink_last h this p after after' q r xs v in
    (h', done, (same p out ∙ here, ok, out, w), λ a off. same a (ground (arith, off)))

pub relink_first :
    (h : Heap) (this before before' after p : Ptr) (o : Order) (xs : Cells)
    → Linked h this before ((p, o) ∷ xs) after
    → (h' : Heap) × (update p (λ c. record c { prev = before' }) h ≡ some h')
      × Linked h' this before' ((p, o) ∷ xs) after
      × SameOutside ((p, o) ∷ xs) h h'
relink_first h this before before' after p o xs (here, ok, out, v) =
    let c : Cell = cell o before' (first xs after) this in
    (
      write h p c,
      update-ok p (λ d. record d { prev = before' }) h (cell o before (first xs after) this) ok
          here,
      (write_here h p c, ok, out, Linked-write h this p after p c xs out v),
      λ a off. write_away h p a c (ground arith),
    )

pub last-null :
    (h : Heap) (this before after p : Ptr) (o : Order) (xs : Cells)
    → Linked h this before ((p, o) ∷ xs) after
    → (last before ((p, o) ∷ xs) == null) ≡ false
last-null h this before after p o xs v = last_ok h this before after p o xs v
