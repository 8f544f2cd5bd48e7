-- ===== src/Agents/Desktop/Launch.antt =====
-- What the desktop agent executes, and what it answers.
use khazar_os.Common.{
  ◌-◌, ◌≡◌, refl, ◌∙◌, ◌⊎◌, Bool, true, false, Option, none, some, [], ◌∷◌, arith, if◌then◌else◌,
  length, take, drop,
}
use khazar_os.CString.{Bytes, lit, contains, skip_spaces}
use khazar_os.Agents.Task.{Done, any_word, trim_blanks}
use khazar_os.Agents.Desktop.{
  Host, Opened, ac_pos, has_blank, before_blank, until_blank, app_behind, or_else, app_of,
  close_words, on_app, on_open, acknowledge, carry_out,
}

-- The way from a path to what is executed: `access` allows the path, `fork` succeeds, and `execl` runs it
-- or not.
pub record Starts (host : Host) (path : Bytes) (launched : Option Bytes) : Type 0 where
  pub allowed : host.access path ≡ true
  pub forked : host.forks ≡ true
  pub outcome : launched ≡ (if host.executes path then some path else none)

-- Success stands for a path that was started, executed or not, or for `closing`; an error for nothing that was
-- executed.
abbrev pub Tells : Host → Bool → Done × Option Bytes → Type 0
Tells host closing r =
    ((r.0.success ≡ true) × (path : Bytes) × Starts host path r.1)
    ⊎ ((r.0.success ≡ closing) × (r.1 ≡ none))

-- What `open_application` leaves.
IsOpened : Host → Opened → Type 0
IsOpened host o =
    ((o.done ≡ true) × (path : Bytes) × Starts host path o.launched)
    ⊎ ((o.done ≡ false) × (o.launched ≡ none))

acknowledge-launched :
    (b : Bool) (r : Done × Option Bytes) → (if b then acknowledge r else r).1 ≡ r.1
unfolding acknowledge
acknowledge-launched true r = refl
acknowledge-launched false r = refl

module _ (host : Host) (query : Bytes) where
  carry_out-launched : (carry_out host query).1 ≡ (on_open host query).1
  unfolding carry_out
  carry_out-launched = acknowledge-launched (any_word close_words query) (on_open host query)

-- The search behind the word finds nothing.
app_behind-nil : (p : Bytes) → app_behind p ≡ []
unfolding app_behind until_blank skip_spaces
app_behind-nil p = rw (drop-length p) refl
  where
    drop-length : (s : Bytes) → drop (length s) s ≡ []
    drop-length [] = refl
    drop-length (c ∷ s) = drop-length s

before_blank-nil : (s : Bytes) → has_blank s ≡ false → before_blank s ≡ []
unfolding before_blank has_blank
before_blank-nil [] h = refl
before_blank-nil (c ∷ s) h = ground arith

app_of-nil :
    (query p : Bytes)
    → contains p (lit "open") ≡ false
    → has_blank (take (length query - length p) query) ≡ false
    → app_of query p ≡ []
unfolding app_of or_else trim_blanks
app_of-nil query p n b =
    rw (n, before_blank-nil (take (length query - length p) query) b, app_behind-nil p) refl

-- Where no blank stands in front of the word for opening, and "open" neither is that word nor stands behind
-- it, nothing is executed, whatever name stands behind the word.
pub carry_out-in_front :
    (host : Host) (query p : Bytes)
    → ac_pos query ≡ some p
    → contains p (lit "open") ≡ false
    → has_blank (take (length query - length p) query) ≡ false
    → (carry_out host query).1 ≡ none
unfolding on_open on_app
carry_out-in_front host query p h n b =
    carry_out-launched host query ∙ (rw (h, on_open, app_of-nil query p n b, on_app) refl)
