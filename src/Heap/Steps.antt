-- ===== src/Heap/Steps.antt =====
-- The steps of `PriceLevel::addOrder` and `removeOrder` on linked cells, and queues without a common cell.
use lobsimulater.Base.{◌≡◌, refl, ◌∙◌, ap, [], ◌∷◌, Option, some, true, false, ◌==◌, arith, ◌>>=◌}
use lobsimulater.Types.{Order}
use lobsimulater.Heap.{
  Ptr, null, cell, Heap, LevelCell, update, link_back, unlink_before, unlink_after,
}
use lobsimulater.Heap.Linked.{Cells, has, first, last, Linked, Apart, load-ok}
use lobsimulater.Heap.Relink.{SameOutside, relink_last, relink_first, last-null}

-- One step of a `do` block whose result is known.
pub bind_some :
    {A B : Type 0} (m : Option A) (f : A → Option B) {a : A} {r : Option B}
    → m ≡ some a
    → f a ≡ r
    → (m >>= f) ≡ r
bind_some m f e k = ap (λ x. x >>= f) e ∙ k

pub Apart-single : (p : Ptr) (o : Order) (xs : Cells) → has p xs ≡ false → Apart xs ((p, o) ∷ [])
Apart-single p o [] out = tt
Apart-single p o ((q, r) ∷ xs) out = (ground arith, Apart-single p o xs (ground arith))

-- The step of `addOrder` that links the last cell, or the head, to the new one.
pub link_back_lem :
    (h : Heap) (this p : Ptr) (l : LevelCell) (xs : Cells)
    → Linked h this null xs null
    → l.head ≡ first xs null
    → l.tail ≡ last null xs
    → (h' : Heap) × (link_back p l h ≡ some (record l { head = first xs p }, h'))
      × Linked h' this null xs p
      × SameOutside xs h h'
unfolding link_back
link_back_lem h this p l [] v head tail = (h, ground arith, tt, λ a off. refl)
link_back_lem h this p l ((q, r) ∷ xs) v head tail =
    let (h', done, w, same) = relink_last h this null null p q r xs v in
    let full : (l.tail == null) ≡ false =
      ap (λ t. t == null) tail ∙ last-null h this null null q r xs v in
    let linked : update l.tail (λ c. record c { next = p }) h ≡ some h' =
      ap (λ t. update t (λ c. record c { next = p }) h) tail ∙ done in
    (
      h',
      rw full (ap (λ x. x >>= λ (g : Heap). some (l, g)) linked)
          ∙ ap (λ z. some (record l { head = z }, h')) head,
      w,
      same,
    )

-- The step of `removeOrder` that leads the cell before, or the head, past the cell.
pub unlink_before_lem :
    (h : Heap) (this p after : Ptr) (o : Order) (l : LevelCell) (ys : Cells)
    → (p == null) ≡ false
    → h p ≡ some (cell o (last null ys) after this)
    → Linked h this null ys p
    → (l.head ≡ first ys p)
    → (h' : Heap) × (unlink_before p l h ≡ some (record l { head = first ys after }, h'))
      × Linked h' this null ys after
      × SameOutside ys h h'
unfolding unlink_before
unlink_before_lem h this p after o l [] ok here v head =
    (h, bind_some _ _ (load-ok p h (cell o null after this) ok here) refl, tt, λ a off. refl)
unlink_before_lem h this p after o l ((q, r) ∷ ys) ok here v head =
    let (h', done, w, same) = relink_last h this null p after q r ys v in
    let full : (last q ys == null) ≡ false = last-null h this null p q r ys v in
    (
      h',
      bind_some _ _ (load-ok p h (cell o (last q ys) after this) ok here) (
          rw full (
            bind_some _ (λ (g : Heap). some (l, g)) done
              (ap (λ z. some (record l { head = z }, h')) head))),
      w,
      same,
    )

-- The step that leads the cell after, or the tail, past the cell.
pub unlink_after_lem :
    (h : Heap) (this p before : Ptr) (o : Order) (l : LevelCell) (zs : Cells)
    → (p == null) ≡ false
    → h p ≡ some (cell o before (first zs null) this)
    → Linked h this p zs null
    → (l.tail ≡ last p zs)
    → (h' : Heap) × (unlink_after p l h ≡ some (record l { tail = last before zs }, h'))
      × Linked h' this before zs null
      × SameOutside zs h h'
unfolding unlink_after
unlink_after_lem h this p before o l [] ok here v tail =
    (h, bind_some _ _ (load-ok p h (cell o before null this) ok here) refl, tt, λ a off. refl)
unlink_after_lem h this p before o l ((q, r) ∷ zs) ok here v tail =
    let (h', done, w, same) = relink_first h this p before null q r zs v in
    (
      h',
      bind_some _ _ (load-ok p h (cell o before q this) ok here) (
          rw v.1 (
            bind_some _ (λ (g : Heap). some (l, g)) done
              (ap (λ z. some (record l { tail = z }, h')) tail))),
      w,
      same,
    )

-- What two queues without a common cell keep apart.
pub Apart-front :
    (p : Ptr) (o : Order) (ys zs : Cells)
    → Apart ys ((p, o) ∷ zs)
    → (has p ys ≡ false) × Apart ys zs
Apart-front p o [] zs a = (refl, tt)
Apart-front p o ((q, r) ∷ ys) zs (off, a) =
    let (out, rest) = Apart-front p o ys zs a in (ground arith, (ground arith, rest))

pub Apart-join :
    (p : Ptr) (o : Order) (ys zs : Cells) → has p ys ≡ false → Apart ys zs → Apart ys ((p, o) ∷ zs)
Apart-join p o [] zs out a = tt
Apart-join p o ((q, r) ∷ ys) zs out (off, a) = (ground arith, Apart-join p o ys zs (ground arith) a)

pub Apart-away : (a : Ptr) (ys zs : Cells) → Apart ys zs → has a zs ≡ true → has a ys ≡ false
Apart-away a [] zs v i = refl
Apart-away a ((q, r) ∷ ys) zs (off, v) i =
    ground (arith, Apart-away a ys zs v i, ap (λ (x : Ptr). has x zs))

pub Apart-back : (a : Ptr) (ys zs : Cells) → Apart ys zs → has a ys ≡ true → has a zs ≡ false
Apart-back a [] zs v i = cc
Apart-back a ((q, r) ∷ ys) zs (off, v) i =
    ground (arith, Apart-back a ys zs v, ap (λ (x : Ptr). has x zs))
