-- ===== src/Portfolio/Net.antt =====
-- Net positions: `Portfolio::updatePosition` and `getNetPosition`.
use Prim.Native.String.{String}
use text.Mathlib.Text.{◌==◌ as str_eq}
use text.Mathlib.TextEquality.{eq_iff}
use lobsimulater.Base.{
  ◌≡◌, refl, sym, ap, ◌∙◌, ℤ, pos, ◌+ℤ◌, eqb_ℤ, eqb_ℤ-eq, Option, none, some, if◌then◌else◌,
  Bool-cases, Option-cases, inl, inr, arith, int_laws, find_named, find_named-set_named,
}
use lobsimulater.Double.{Double}
use lobsimulater.Portfolio.{
  Portfolio, Position, or_new, position_at, reprice, update_position, trade_position, get_position,
  get_net_position,
}

module _ {D : Type 0} ⦃d : Double D⦄ where
  reprice-quantity : (dq : ℤ) (px : D) (p : Position D) → (reprice dq px p).quantity ≡ p.quantity
  unfolding reprice
  reprice-quantity dq px p = ground arith

  -- A trade adds its quantity to a position, whether it extends, reduces or flips it.
  pub update_position-quantity :
      (dq : ℤ) (px : D) (p : Position D) → (update_position dq px p).quantity ≡ p.quantity +ℤ dq
  unfolding update_position
  update_position-quantity dq px p = elim (Bool-cases (eqb_ℤ dq (pos 0))) [
    | inl none_traded ↦
        rw none_traded
          (sym (ap (λ q. p.quantity +ℤ q) (eqb_ℤ-eq dq (pos 0) none_traded) ∙ omega int_laws))
    | inr traded ↦ rw traded (ap (λ q. q +ℤ dq) (reprice-quantity dq px p))
  ]

  abbrev updated : String → ℤ → D → Portfolio D → Position D
  updated name dq px f = update_position dq px (record (position_at name f) { symbol = name })

  abbrev quantity_in : Option (Position D) → ℤ
  quantity_in none = pos 0
  quantity_in (some p) = p.quantity

  or_new-quantity :
      (name : String) (x : Option (Position D)) → (or_new name x).quantity ≡ quantity_in x
  or_new-quantity name none = refl
  or_new-quantity name (some p) = refl

  get_net_position-quantity_in :
      (f : Portfolio D) (name : String)
      → get_net_position name f ≡ quantity_in (find_named name f.positions)
  unfolding get_net_position get_position
  get_net_position-quantity_in f name = elim (Option-cases (find_named name f.positions)) [
    | inl e ↦ rw (e, get_net_position) refl
    | inr (p, e) ↦ rw (e, get_net_position) refl
  ]

  find-traded :
      (name other : String) (dq : ℤ) (px : D) (f : Portfolio D)
      → find_named other (trade_position name dq px f).positions
        ≡ (if str_eq name other then some (updated name dq px f) else find_named other f.positions)
  unfolding trade_position
  find-traded name other dq px f =
      find_named-set_named other name (updated name dq px f) f.positions

  -- A trade in one symbol adds its quantity to the net position there, and to no other.
  pub trade_position-get_net_position :
      (name other : String) (dq : ℤ) (px : D) (f : Portfolio D)
      → get_net_position other (trade_position name dq px f)
        ≡ (if str_eq name other then get_net_position other f +ℤ dq else get_net_position other f)
  trade_position-get_net_position name other dq px f =
      get_net_position-quantity_in (trade_position name dq px f) other
      ∙ ap quantity_in (find-traded name other dq px f)
      ∙ elim (Bool-cases (str_eq name other)) [
        | inr off ↦ rw off (sym (get_net_position-quantity_in f other))
        | inl on ↦ rw on (
            update_position-quantity dq px (record (position_at name f) { symbol = name })
            ∙ ap (λ q. q +ℤ dq)
                (or_new-quantity name (find_named name f.positions)
                  ∙ ap (λ k. quantity_in (find_named k f.positions)) ((eq_iff name other).0 on)
                  ∙ sym (get_net_position-quantity_in f other)))
      ]
