-- ===== src/Store/Confirmations.antt =====
-- What `refresh_confirmations` of store.rs leaves in public.blocks.
use mathlib.Core.Path.{subst}
use block_ex.Prelude.{
  ◌≡◌, refl, sym, ap, ◌∙◌, Bool, true, false, not, ◌&&◌, map, Bytes, arith, All, All-update,
  All-unit, map-update, if◌then◌else◌,
}
use block_ex.Prelude.Int.{ℤ, pos, ◌+ℤ◌, ◌-ℤ◌, ◌≤ℤ◌}
use block_ex.Prelude.Order.{leb_ℤ, min_ℤ, max_ℤ}
use block_ex.Result.{ok}
use block_ex.Db.{BlockRow}
use block_ex.World.{Env, World, execute}
use block_ex.World.Laws.{>>=-eq-ok, execute-ok}
use block_ex.Store.{refresh_window, finalize_below, refresh_confirmations}

-- Within the window a row counts the blocks up to the tip, itself included, and is final just where
-- it is not above the finalized height. Outside of it, what is not above that height is final too.
pub record IsCurrent (start tip finalized : ℤ) (b : BlockRow) : Type 0 where
  pub counted : start ≤ℤ b.height → b.height ≤ℤ tip → b.confirmations ≡ tip -ℤ b.height +ℤ pos 1
  pub not_yet :
      start ≤ℤ b.height → b.height ≤ℤ tip → finalized +ℤ pos 1 ≤ℤ b.height → b.is_final ≡ false
  pub final : b.height ≤ℤ finalized → b.is_final ≡ true

abbrev inside : ℤ → ℤ → BlockRow → Bool
inside start tip b = leb_ℤ start b.height && leb_ℤ b.height tip

record IsCounted (start tip finalized : ℤ) (b : BlockRow) : Type 0 where
  counted : start ≤ℤ b.height → b.height ≤ℤ tip → b.confirmations ≡ tip -ℤ b.height +ℤ pos 1
  settled : start ≤ℤ b.height → b.height ≤ℤ tip → b.is_final ≡ leb_ℤ b.height finalized

IsCounted-row :
    (start tip finalized : ℤ) (b : BlockRow)
    → IsCounted start tip finalized (
        if inside start tip b
        then record b {
          confirmations = max_ℤ (tip -ℤ b.height +ℤ pos 1) (pos 0);
          is_final = leb_ℤ b.height finalized;
        }
        else b)
unfolding ◌+ℤ◌ ◌-ℤ◌
IsCounted-row start tip finalized b = record {
  counted = λ p q. ground arith;
  settled = λ p q. ground arith;
}

IsCurrent-row :
    (start tip finalized : ℤ) (b : BlockRow)
    → IsCounted start tip finalized b
    → IsCurrent start tip finalized
        (if leb_ℤ b.height finalized && not b.is_final then record b { is_final = true } else b)
unfolding ◌+ℤ◌ ◌-ℤ◌
IsCurrent-row start tip finalized b h = record {
  counted = λ p q. ground (arith, h.counted);
  not_yet = λ p q r. ground (arith, h.settled);
  final = λ p. ground arith;
}

abbrev pub key : BlockRow → ℤ × Bytes
key b = (b.height, b.hash)

module _ (env : Env) where
  -- When `refresh_confirmations` succeeds, the window it works on being what its clamps make of its
  -- arguments, every row is current and the rows have the heights and the hashes that they had.
  pub refresh_confirmations-IsCurrent :
      (start_height tip finalized : ℤ) (w : World) {u : Unit {0}} {w' : World}
      → refresh_confirmations env start_height tip finalized w ≡ (ok u, w')
      → All (IsCurrent (max_ℤ (min_ℤ start_height tip) (pos 0)) tip finalized) w'.database.blocks
        × (map key w'.database.blocks ≡ map key w.database.blocks)
  unfolding refresh_confirmations refresh_window finalize_below
  refresh_confirmations-IsCurrent start_height tip finalized w {u} {w'} h =
      let start = max_ℤ (min_ℤ start_height tip) (pos 0) in
      let (_, w₁, first, rest) =
        >>=-eq-ok (execute env (refresh_window start tip finalized)) _ w h in
      let e₁ : w₁.database.blocks ≡ (refresh_window start tip finalized w.database).blocks =
        ap (λ d. d.blocks) (execute-ok env (refresh_window start tip finalized) w first) in
      let e₂ : w'.database.blocks ≡ (finalize_below finalized w₁.database).blocks =
        ap (λ d. d.blocks) (execute-ok env (finalize_below finalized) w₁ rest) in
      (
        subst (All (IsCurrent start tip finalized)) (sym e₂) (
            All-update (IsCounted start tip finalized) (IsCurrent start tip finalized)
              (λ b. leb_ℤ b.height finalized && not b.is_final) (λ b. record b { is_final = true })
              w₁.database.blocks (IsCurrent-row start tip finalized)
              (subst (All (IsCounted start tip finalized)) (sym e₁) (
                All-update (λ _. Unit {0}) (IsCounted start tip finalized) (inside start tip) _
                  w.database.blocks (λ b _. IsCounted-row start tip finalized b)
                  (All-unit w.database.blocks)))),
        ap (map key) e₂
            ∙ map-update key _ _ w₁.database.blocks (λ b. refl)
            ∙ ap (map key) e₁
            ∙ map-update key _ _ w.database.blocks (λ b. refl),
      )
