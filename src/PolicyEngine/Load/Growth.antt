-- ===== src/PolicyEngine/Load/Growth.antt =====
-- What loading rule files does to the store (khazar/components/policy-engine/policy/policy.c).
use khazar_os.Common.{
  ℕ, ◌+◌, ◌≤◌, ◌<◌, ◌≡◌, refl, sym, ap, ◌∙◌, inl, inr, Bool, true, false, ◌&&◌, Option, none, some,
  List, [], ◌∷◌, ◌++◌, arith, ltb, if◌then◌else◌, length, ℤ, pos, negsuc, Bool-cases, length-append,
}
use khazar_os.CString.{Bytes}
use mathlib.Core.List.{append-nil, append_assoc}
use khazar_os.PolicyEngine.Store.{PolicyRule, PolicyStore, max_policies}
use khazar_os.CString.Lines.{lines, scan_pair}
use khazar_os.PolicyEngine.Load.{
  File, Loader, flush, load_pair, load_line, load_lines, loader_init, policy_load_file, add_loaded,
  load_files, policy_load_dir,
}

-- `after` is `before` with `n` rules behind it, and has room for them.
pub record Grows (before after : PolicyStore) (n : ℕ) : Type 0 where
  pub added : List PolicyRule
  pub appends : after ≡ before ++ added
  pub counted : length added ≡ n
  pub fits : length before ≤ max_policies → length after ≤ max_policies

Grows-nil : (ps : PolicyStore) → Grows ps ps 0
Grows-nil ps = record { added = []; appends = sym (append-nil ps); counted = refl; fits = λ h. h }

Grows-trans : {a b c : PolicyStore} {m n : ℕ} → Grows a b m → Grows b c n → Grows a c (m + n)
Grows-trans {a} g h = record {
  added = g.added ++ h.added;
  appends = h.appends ∙ ap (λ x. x ++ h.added) g.appends ∙ append_assoc a g.added h.added;
  counted = omega (arith, length-append g.added h.added, g.counted, h.counted);
  fits = λ x. h.fits (g.fits x);
}

Grows-one :
    (ps : PolicyStore) (r : PolicyRule) → length ps < max_policies → Grows ps (ps ++ r ∷ []) 1
Grows-one ps r room = record {
  added = r ∷ [];
  appends = refl;
  counted = refl;
  fits = λ _. omega (arith, length-append ps (r ∷ []));
}

Grows-count : {a b : PolicyStore} {m n : ℕ} → m ≡ n → Grows a b m → Grows a b n
Grows-count {a} {b} e g = rw e at g

-- What one step of the loader does to the store and to the counter.
record Advances (l l' : Loader) : Type 0 where
  n : ℕ
  grows : Grows l.store l'.store n
  loaded : l'.loaded ≡ l.loaded + n

Advances-same : (l l' : Loader) → l'.store ≡ l.store → l'.loaded ≡ l.loaded → Advances l l'
Advances-same l l' s e = record {
  n = 0;
  grows = rw s (Grows-nil l.store);
  loaded = omega (arith, e);
}

Advances-trans : {a b c : Loader} → Advances a b → Advances b c → Advances a c
Advances-trans f g = record {
  n = f.n + g.n;
  grows = Grows-trans f.grows g.grows;
  loaded = omega (arith, f.loaded, g.loaded);
}

flush-Advances : (l : Loader) → Advances l (flush l)
unfolding flush
flush-Advances l = elim (Bool-cases (l.in_rule && ltb (length l.store) max_policies)) [
  | inl h ↦ rw h (record { n = 1; grows = Grows-one l.store l.rule (ground arith); loaded = refl })
  | inr h ↦ rw h (Advances-same l l refl refl)
]

load_pair-Advances : (l : Loader) (o : Option (Bytes × Bytes)) → Advances l (load_pair l o)
unfolding load_pair
load_pair-Advances l none = Advances-same l l refl refl
load_pair-Advances l (some (k, v)) = Advances-same l _ refl refl

Advances-if :
    (b : Bool) {l x y : Loader} → Advances l x → Advances l y → Advances l (if b then x else y)
Advances-if true h k = h
Advances-if false h k = k

load_line-Advances : (l : Loader) (line : Bytes) → Advances l (load_line l line)
unfolding load_line
load_line-Advances l line = Advances-if _ (Advances-same l l refl refl) (
    Advances-if _ (Advances-trans (flush-Advances l) (Advances-same (flush l) _ refl refl))
      (Advances-if _ (Advances-same l l refl refl) (load_pair-Advances l (scan_pair line))))

load_lines-Advances : (ls : List Bytes) (l : Loader) → Advances l (load_lines l ls)
unfolding load_lines
load_lines-Advances [] l = Advances-same l l refl refl
load_lines-Advances (x ∷ ls) l =
    Advances-trans (load_line-Advances l x) (load_lines-Advances ls (load_line l x))

-- What a call that returns `r` does to the store: an error leaves it alone, and a count says how
-- many rules were appended.
abbrev pub Loads : PolicyStore → PolicyStore × ℤ → Type 0
Loads ps (ps', pos n) = Grows ps ps' n
Loads ps (ps', negsuc n) = ps' ≡ ps

-- `policy_load_file` on a file that opens appends exactly as many rules as it returns, keeps those
-- that were there, and stays within `MAX_POLICIES`; on one that does not open it changes nothing.
pub policy_load_file-Loads : (ps : PolicyStore) (f : File) → Loads ps (policy_load_file ps f)
unfolding policy_load_file
policy_load_file-Loads ps none = refl
policy_load_file-Loads ps (some text) =
    let a =
      Advances-trans (load_lines-Advances (lines 511 text) (loader_init ps)) (flush-Advances _) in
    Grows-count (omega (arith, a.loaded)) a.grows

add_loaded-Grows :
    (ps : PolicyStore) (total : ℕ) (r : PolicyStore × ℤ)
    → Loads ps r
    → (n : ℕ) × Grows ps r.0 n × (add_loaded total r.1 ≡ total + n)
unfolding add_loaded
add_loaded-Grows ps total (ps', pos n) g = (n, g, refl)
add_loaded-Grows ps total (ps', negsuc n) e = (0, rw e (Grows-nil ps), omega arith)

load_files-Grows :
    (fs : List File) (ps : PolicyStore) (total : ℕ)
    → (n : ℕ) × Grows ps (load_files ps total fs).0 n × ((load_files ps total fs).1 ≡ total + n)
unfolding load_files
load_files-Grows [] ps total = (0, Grows-nil ps, omega arith)
load_files-Grows (f ∷ fs) ps total =
    let (m, g, e) =
      add_loaded-Grows ps total (policy_load_file ps f) (policy_load_file-Loads ps f) in
    let (n, h, d) =
      load_files-Grows fs (policy_load_file ps f).0 (add_loaded total (policy_load_file ps f).1) in
    (m + n, Grows-trans g h, omega (arith, e, d))

-- `policy_load_dir` appends exactly as many rules as it returns over all its files, whether or not
-- each of them opens, and stays within `MAX_POLICIES`; if the listing fails it changes nothing.
pub policy_load_dir-Loads :
    (ps : PolicyStore) (dir : Option (List File)) → Loads ps (policy_load_dir ps dir)
unfolding policy_load_dir
policy_load_dir-Loads ps none = refl
policy_load_dir-Loads ps (some files) =
    let (n, g, e) = load_files-Grows files ps 0 in Grows-count (omega (arith, e)) g
