-- ===== src/Padd/Sync/Emitted.antt =====
-- What sync_control and sync_pad leave in `emitted`.
use anyconsole.Base.{
  ℕ, zero, suc, ◌≡◌, refl, ◌∙◌, Bool, ◌&&◌, arith, ltb, ◌==◌, if◌then◌else◌, Bool-cases, inl, inr,
}
use anyconsole.Base.Int.{ℤ, eqb_ℤ, eqb_ℤ→eq}
use anyconsole.Base.Loop.{for_below}
use anyconsole.Padd.Controls.{control_count}
use anyconsole.Padd.Floats.{Floats}
use anyconsole.Padd.State.{View, Rules, Outputs}
use anyconsole.Padd.Sync.{
  send_blow, sync_blow, write_control, emit_control, set_emitted, merged, sync_control, sync_pad,
}

emitted-send_blow : (on : Bool) (O : Outputs) → (send_blow on O).emitted ≡ O.emitted
unfolding send_blow
emitted-send_blow on O = ground arith

emitted-sync_blow : (seat i : ℕ) (O : Outputs) → (sync_blow seat i O).emitted ≡ O.emitted
unfolding sync_blow
emitted-sync_blow seat i O = grind (arith, emitted-send_blow)

emitted-write_control :
    (seat i : ℕ) (v : ℤ) (O : Outputs) → (write_control seat i v O).emitted ≡ O.emitted
unfolding write_control
emitted-write_control seat i v O = ground arith

emitted-emit_control :
    (seat i : ℕ) (v : ℤ) (O : Outputs) (s k : ℕ)
    → (emit_control seat i v O).emitted s k ≡ (if s == seat && k == i then v else O.emitted s k)
unfolding emit_control
emitted-emit_control seat i v O s k = elim (Bool-cases (eqb_ℤ v (O.emitted seat i))) [
  | inl same ↦ rw same (ground (arith, eqb_ℤ→eq v (O.emitted seat i) same))
  | inr new ↦ rw new (rw (emitted-write_control, emitted-sync_blow) (ground arith))
]

is_plugged-send_blow : (on : Bool) (O : Outputs) → (send_blow on O).is_plugged ≡ O.is_plugged
unfolding send_blow
is_plugged-send_blow on O = ground arith

is_plugged-sync_blow : (seat i : ℕ) (O : Outputs) → (sync_blow seat i O).is_plugged ≡ O.is_plugged
unfolding sync_blow
is_plugged-sync_blow seat i O = grind (arith, is_plugged-send_blow)

is_plugged-write_control :
    (seat i : ℕ) (v : ℤ) (O : Outputs) → (write_control seat i v O).is_plugged ≡ O.is_plugged
unfolding write_control
is_plugged-write_control seat i v O = ground arith

is_plugged-emit_control :
    (seat i : ℕ) (v : ℤ) (O : Outputs) → (emit_control seat i v O).is_plugged ≡ O.is_plugged
unfolding emit_control
is_plugged-emit_control seat i v O = ground (
  arith,
  is_plugged-write_control seat i v (sync_blow seat i (set_emitted seat i v O)),
  is_plugged-sync_blow seat i (set_emitted seat i v O),
)

module _ ⦃F : Floats⦄ where
  is_plugged-loop :
      (rules : Rules) (views : ℕ → View) (seat n : ℕ) (O : Outputs)
      → (for_below n (λ i. sync_control rules views seat i) O).is_plugged ≡ O.is_plugged
  unfolding for_below sync_control
  is_plugged-loop rules views seat zero O = refl
  is_plugged-loop rules views seat (suc n) O =
      is_plugged-emit_control seat n (merged rules views seat n) _
      ∙ is_plugged-loop rules views seat n O

  pub is_plugged-sync_pad :
      (rules : Rules) (views : ℕ → View) (seat : ℕ) (O : Outputs)
      → (sync_pad rules views seat O).is_plugged ≡ O.is_plugged
  unfolding sync_pad
  is_plugged-sync_pad rules views seat O =
      ground (arith, is_plugged-loop rules views seat control_count O)

  emitted-loop :
      (rules : Rules) (views : ℕ → View) (seat n : ℕ) (O : Outputs) (s k : ℕ)
      → (for_below n (λ i. sync_control rules views seat i) O).emitted s k
        ≡ (if s == seat && ltb k n then merged rules views seat k else O.emitted s k)
  unfolding for_below sync_control
  emitted-loop rules views seat zero O s k = ground arith
  emitted-loop rules views seat (suc n) O s k = ground (
    arith,
    emitted-emit_control seat n (merged rules views seat n)
        (for_below n (λ i. sync_control rules views seat i) O) s k,
    emitted-loop rules views seat n O s k,
  )

  -- After sync_pad every control of a plugged seat has the merged value of the seat's devices, and
  -- nothing of another seat, or of a seat that is not plugged, has changed.
  pub emitted-sync_pad :
      (rules : Rules) (views : ℕ → View) (seat : ℕ) (O : Outputs) (s k : ℕ)
      → (sync_pad rules views seat O).emitted s k ≡ (
          if O.is_plugged seat && (s == seat && ltb k control_count)
          then merged rules views seat k
          else O.emitted s k)
  unfolding sync_pad
  emitted-sync_pad rules views seat O s k =
      ground (arith, emitted-loop rules views seat control_count O s k)
