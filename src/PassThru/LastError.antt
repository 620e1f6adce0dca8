-- ===== src/PassThru/LastError.antt =====
-- PassThruGetLastError writes a terminated text.
use qt_gretio.Prelude.{
  ℕ, String, ◌≡◌, refl, ◌⊎◌, inl, inr, true, none, some, List, arith, Option-cases, length,
}
use qt_gretio.Qt.{Qt, QtLaws, codes}
use qt_gretio.J2534.Message.{c_string}
use qt_gretio.PassThru.{
  Globals, returned, strncpy, pass_thru_get_last_error, no_error_yet, could_not_send,
  context_is_null,
}
use qt_gretio.PassThru.Invariant.{Inv, is_some}

module _ (q : Qt) (laws : QtLaws q) where
  -- What the caller's buffer holds.
  abbrev pub IsText : List ℕ → String → Type 0
  IsText out t = (length out ≡ 80) × (c_string out ≡ some (codes t))

  copied :
      (g : Globals q) (t : String)
      → g.last_error ≡ q.text t
      → q.to_utf8 (q.text t) ≡ codes t
      → IsText (strncpy 80 (codes t)) t
      → IsText (strncpy 80 (q.to_utf8 g.last_error)) t
  copied g t e f h = rw (e, f) h

  -- In every state that a history of calls reaches, the function fills the caller's 80 bytes with
  -- a NUL-terminated text: the one for a device that is not open, or one of the two last errors.
  pub pass_thru_get_last_error-IsText :
      (g : Globals q)
      → Inv g
      → (out : List ℕ) × (pass_thru_get_last_error q g ≡ returned out g)
        × ((IsText out context_is_null × (g.context ≡ none))
            ⊎ ((is_some g.context ≡ true) × (IsText out no_error_yet ⊎ IsText out could_not_send)))
  unfolding pass_thru_get_last_error strncpy c_string
  pass_thru_get_last_error-IsText g v = elim (Option-cases g.context) [
    | inl e ↦ (
      strncpy 80 (codes context_is_null),
      simp (pass_thru_get_last_error, e),
      inl ((refl, refl), e),
    )
    | inr (c, e) ↦ (
      strncpy 80 (q.to_utf8 g.last_error),
      simp (pass_thru_get_last_error, e),
      inr (
        rw e refl,
        elim v.error_known [
          | inl first ↦ inl (
              copied g no_error_yet first (laws.to_utf8-text no_error_yet (omega arith))
                (refl, refl))
          | inr second ↦ inr (
              copied g could_not_send second (laws.to_utf8-text could_not_send (omega arith))
                (refl, refl))
        ],
      ),
    )
  ]
