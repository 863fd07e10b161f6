-- ===== src/Logging/Levels.antt =====
-- Levels that are written and read, and when a level is logged.
use blockmania.Prelude.{ℕ, ◌<◌, ◌≡◌, ◌↔◌, ◌||◌, zero, suc, refl, none, some, leb, arith}
use blockmania.Prelude.Texts.{Text}
use blockmania.Logging.{
  marshal_level, level_string, unmarshal_level, MinLevels, update_min_levels, is_logged, warn_level,
}

below_seven : (P : ℕ → Type 0) → P 1 → P 2 → P 3 → P 4 → P 5 → P 6 → (l : ℕ) → 0 < l → l < 7 → P l
below_seven P a b c d e f zero lo hi = absurd (omega arith)
below_seven P a b c d e f (suc zero) lo hi = a
below_seven P a b c d e f (suc (suc zero)) lo hi = b
below_seven P a b c d e f (suc (suc (suc zero))) lo hi = c
below_seven P a b c d e f (suc (suc (suc (suc zero)))) lo hi = d
below_seven P a b c d e f (suc (suc (suc (suc (suc zero))))) lo hi = e
below_seven P a b c d e f (suc (suc (suc (suc (suc (suc zero)))))) lo hi = f
below_seven P a b c d e f (suc (suc (suc (suc (suc (suc (suc l))))))) lo hi = absurd (omega arith)

-- A level is logged exactly if one of the console, the file and the network logs it.
is_logged-update_min_levels :
    (l : MinLevels) (level : ℕ)
    → level < 7
    → is_logged (update_min_levels l) level
      ≡ (leb l.console level || (leb l.file level || leb l.net level))
unfolding update_min_levels
is_logged-update_min_levels l level h = ground arith

-- `UnmarshalYAML` reads every level back from what `MarshalYAML` writes of it, whatever was there,
-- and `String` names every level but that of warnings, at which it panics.
levels_read_back :
    (l old : ℕ)
    → 0 < l
    → l < 7
    → ((t : Text) × (marshal_level l ≡ some t) × (unmarshal_level t old ≡ some l))
      × ((level_string l ≡ none) ↔ (l ≡ warn_level))
unfolding marshal_level unmarshal_level level_string
levels_read_back l old lo hi =
    below_seven
      (λ l.
        ((t : Text) × (marshal_level l ≡ some t) × (unmarshal_level t old ≡ some l))
        × ((level_string l ≡ none) ↔ (l ≡ warn_level)))
      ((_, refl, refl), (λ e. cc, λ e. cc)) ((_, refl, refl), (λ e. cc, λ e. cc))
      ((_, refl, refl), (λ e. refl, λ e. refl)) ((_, refl, refl), (λ e. cc, λ e. cc))
      ((_, refl, refl), (λ e. cc, λ e. cc)) ((_, refl, refl), (λ e. cc, λ e. cc)) l lo hi
