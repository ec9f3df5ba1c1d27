-- ===== src/Domain/Portfolio/Netting.antt =====
-- What a run of fills does: each position is the net of the fills of its symbol, and none is short.
use loss_function.Prelude.{
  ℕ, ◌+◌, ◌<◌, ◌^◌, ◌≡◌, sym, refl, Bool-cases, inl, inr, List, [], ◌∷◌, ok, bind_succeeds, All,
  arith, if◌then◌else◌,
}
use loss_function.Prelude.Int.{
  ℤ, pos, pos_part, one_part, ◌+ℤ◌, ◌-ℤ◌, ◌≤ℤ◌, InI64, wrap_i64, wrap_i64_id, wrap_i64-add,
  wrap_i64-sub, add_i64, sub_i64, add_i64_exact, sub_i64_exact, int_laws,
}
use loss_function.Decimal.{Decimal}
use loss_function.Types.{OrderSide, buy, sell, Symbol, symbol_eq}
use loss_function.Domain.Portfolio.{Fill, Portfolio, position, apply_fill, apply_fills}
use loss_function.Domain.Portfolio.Positions.{shares, moved, shares-apply_fill, sell_covered}

-- The specification: bought less sold, over the unbounded integers.
abbrev pub net_add : OrderSide → ℤ → ℤ → ℤ
net_add buy held quantity = held +ℤ quantity
net_add sell held quantity = held -ℤ quantity

abbrev pub net : {P : Type 0} → Symbol → ℤ → List (Fill P) → ℤ
net s held [] = held
net s held (f ∷ fs) =
    net s (if symbol_eq.beq s f.symbol then net_add f.side held f.quantity else held) fs

abbrev pub HasI64 : {P : Type 0} → Fill P → Type 0
HasI64 f = InI64 f.quantity

moved-wrap : (side : OrderSide) (a q : ℤ) → moved side (wrap_i64 a) q ≡ wrap_i64 (net_add side a q)
unfolding add_i64 sub_i64
moved-wrap buy a q = wrap_i64-add a q
moved-wrap sell a q = wrap_i64-sub a q

module _ {P : Type 0} ⦃d : Decimal P⦄ where
  net_step :
      (p m : Portfolio P) (f : Fill P) (s : Symbol) (a : ℤ)
      → InI64 f.quantity
      → shares (position p s) ≡ wrap_i64 a
      → apply_fill p f ≡ ok m
      → shares (position m s)
        ≡ wrap_i64 (if symbol_eq.beq s f.symbol then net_add f.side a f.quantity else a)
  net_step p m f s a i e h = elim (Bool-cases (symbol_eq.beq s f.symbol)) [
    | inl own ↦ rw (shares-apply_fill p f s i h) (
        rw own
          (rw (← (symbol_eq.beq_iff s f.symbol).0 own) (rw e (moved-wrap f.side a f.quantity))))
    | inr other ↦ rw (shares-apply_fill p f s i h) (rw other e)
  ]

  net_from :
      (fs : List (Fill P)) (p q : Portfolio P) (s : Symbol) (a : ℤ)
      → All HasI64 fs
      → shares (position p s) ≡ wrap_i64 a
      → apply_fills p fs ≡ ok q
      → shares (position q s) ≡ wrap_i64 (net s a fs)
  unfolding apply_fills
  net_from [] p q s a i e h = ground arith
  net_from (f ∷ fs) p q s a i e h =
      let (m, rest, first) = bind_succeeds (apply_fill p f) _ _ h in
      net_from fs m q s (if symbol_eq.beq s f.symbol then net_add f.side a f.quantity else a) i.1
        (net_step p m f s a i.0 e first) rest

  -- After any run of fills that succeeds, where all quantities and the shares held before are
  -- values of an i64, each symbol holds its net: the shares held before, plus those bought, less
  -- those sold, as an i64.
  pub shares-apply_fills :
      (p : Portfolio P) (fs : List (Fill P)) (s : Symbol) {q : Portfolio P}
      → InI64 (shares (position p s))
      → All HasI64 fs
      → apply_fills p fs ≡ ok q
      → shares (position q s) ≡ wrap_i64 (net s (shares (position p s)) fs)
  shares-apply_fills p fs s {q} i all h =
      net_from fs p q s (shares (position p s)) all (sym (wrap_i64_id _ i)) h

-- The shares of one symbol that a run buys.
abbrev buys : OrderSide → ℤ → ℕ
buys buy quantity = pos_part quantity
buys sell quantity = 0

abbrev pub bought_of : {P : Type 0} → Symbol → List (Fill P) → ℕ
bought_of s [] = 0
bought_of s (f ∷ fs) =
    (if symbol_eq.beq s f.symbol then buys f.side f.quantity else 0) + bought_of s fs

-- A fill of an i64 that is not negative.
abbrev pub IsSound : {P : Type 0} → Fill P → Type 0
IsSound f = InI64 f.quantity × (pos 0 ≤ℤ f.quantity)

moved_long :
    (side : OrderSide) (held quantity : ℤ) (room : ℕ)
    → pos 0 ≤ℤ held
    → pos 0 ≤ℤ quantity
    → (side ≡ sell → quantity ≤ℤ held)
    → pos_part held + (buys side quantity + room) < 2 ^ 63
    → (pos 0 ≤ℤ moved side held quantity) × (pos_part (moved side held quantity) + room < 2 ^ 63)
moved_long buy held quantity room h i c b =
    rw
      (add_i64_exact held quantity (record {
        low = omega (int_laws, one_part (held +ℤ quantity));
        high = omega (int_laws, one_part (held +ℤ quantity));
      }))
      (omega int_laws, omega (int_laws, one_part (held +ℤ quantity)))
moved_long sell held quantity room h i c b =
    rw (sub_i64_exact held quantity (record { low = omega arith; high = omega arith }) i (c refl))
      (omega (int_laws, c refl), omega (int_laws, c refl, one_part (held -ℤ quantity)))

module _ {P : Type 0} ⦃d : Decimal P⦄ where
  long_step :
      (p m : Portfolio P) (f : Fill P) (s : Symbol) (room : ℕ)
      → IsSound f
      → pos 0 ≤ℤ shares (position p s)
      → pos_part (shares (position p s))
          + ((if symbol_eq.beq s f.symbol then buys f.side f.quantity else 0) + room)
        < 2 ^ 63
      → apply_fill p f ≡ ok m
      → (pos 0 ≤ℤ shares (position m s)) × (pos_part (shares (position m s)) + room < 2 ^ 63)
  long_step p m f s room i l b h = elim (Bool-cases (symbol_eq.beq s f.symbol)) [
    | inl own ↦
        let e = (symbol_eq.beq_iff s f.symbol).0 own in
        rw (shares-apply_fill p f s i.0 h) (
          rw own (
            rw (← e) (
              moved_long f.side (shares (position p s)) f.quantity room l i.1
                (λ w. rw e (sell_covered p f w h)) (rw own at b))))
    | inr other ↦ rw (shares-apply_fill p f s i.0 h) (rw other (l, omega (arith, rw other at b)))
  ]

  -- A position that is not short stays so over any run of fills that succeeds, if no fill has a
  -- negative quantity and the shares held and bought fit an i64.
  pub never_short :
      (fs : List (Fill P)) (p : Portfolio P) (s : Symbol) {q : Portfolio P}
      → All IsSound fs
      → pos 0 ≤ℤ shares (position p s)
      → pos_part (shares (position p s)) + bought_of s fs < 2 ^ 63
      → apply_fills p fs ≡ ok q
      → pos 0 ≤ℤ shares (position q s)
  unfolding apply_fills
  never_short [] p s {q} i l b h = ground arith
  never_short (f ∷ fs) p s {q} i l b h =
      let (m, rest, first) = bind_succeeds (apply_fill p f) _ _ h in
      let (long, fits) = long_step p m f s (bought_of s fs) i.0 l b first in
      never_short fs m s i.1 long fits rest
