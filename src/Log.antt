-- ===== src/Log.antt =====
-- src/log.c. `vfprintf` is a parameter, and what is printed is appended to a list.
use libbayeux.Prelude.{
  ℕ, zero, suc, sym, subst, ◌<◌, ◌≤◌, ◌≡◌, ap, List, [], ◌∷◌, ◌++◌, length, length-append, arith,
  take,
}
use libbayeux.Libc.{CString, codes}
use libbayeux.Libc.Decimal.{snprintf, snprintf_fits}

-- The buffer `format2`, up to its 0: "%.510s\n" of the format.
unfoldable pub format2 : CString → CString
unfolding snprintf
format2 format = snprintf 512 (take 510 format ++ codes "\n")

module _ {A : Type 0} (vfprintf : CString → A → CString) where
  unfoldable pub log_info : CString → A → List CString → List CString
  unfolding format2
  log_info format args stderr = stderr ++ (vfprintf (format2 format) args ∷ [])

length-take_le : (n : ℕ) (text : CString) → length (take n text) ≤ n
length-take_le zero text = omega arith
length-take_le (suc n) [] = omega arith
length-take_le (suc n) (c ∷ text) = omega (arith, length-take_le n text)

module _ {A : Type 0} (vfprintf : CString → A → CString) where
  -- Of a format of any length, at most the first 510 bytes are printed, and a line end behind them:
  -- the buffer of 512 bytes never cuts the line end off.
  pub log_info-line :
      (format : CString) (args : A) (stderr : List CString)
      → (log_info vfprintf format args stderr
          ≡ stderr ++ (vfprintf (take 510 format ++ codes "\n") args ∷ []))
        × (length (format2 format) < 512)
  unfolding log_info format2
  log_info-line format args stderr =
      let short : length (take 510 format ++ codes "\n") < 512 =
        omega (arith, length-append (take 510 format) (codes "\n"), length-take_le 510 format) in
      let whole = snprintf_fits 512 (take 510 format ++ codes "\n") short in
      (
        ap (λ f. stderr ++ (vfprintf f args ∷ [])) whole,
        subst (λ f. length f < 512) (sym whole) short,
      )
