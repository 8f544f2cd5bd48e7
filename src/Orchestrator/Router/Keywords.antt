-- ===== src/Orchestrator/Router/Keywords.antt =====
-- What the keyword router finds.
use khazar_os.Common.{
  ◌≡◌, refl, ap, ◌∙◌, ◌⊎◌, inl, inr, true, some, List, [], ◌∷◌, ◌++◌, take, drop, Bool-cases,
}
use khazar_os.CString.{Bytes, lit, strncpy, contains}
use khazar_os.Common.{All}
use khazar_os.CString.Laws.{contains-part}
use khazar_os.Orchestrator.Message.{Request, Intent}
use khazar_os.Orchestrator.Router.{
  KeywordEntry, pairs, router_init, lower_query, first_keyword, router_resolve,
}

-- The search ends at `k` at the latest.
first_keyword-hit :
    (P : KeywordEntry → Type 0) (query : Bytes) (k : KeywordEntry)
    (behind before : List KeywordEntry)
    → contains query k.keyword ≡ true
    → P k
    → All P before
    → (r : KeywordEntry) × (first_keyword query (before ++ k ∷ behind) ≡ some r) × P r
unfolding first_keyword
first_keyword-hit P query k behind [] h p a = (k, rw h, p)
first_keyword-hit P query k behind (b ∷ before) h p a =
    elim (Bool-cases (contains query b.keyword)) [
      | inl y ↦ (b, rw y, a.0)
      | inr n ↦ let (r, e, q) = first_keyword-hit P query k behind before h p a.1 in (r, rw n e, q)
    ]

-- The capability of the intent is one of the two for applications.
abbrev pub IsOpenOrClose : Bytes → Type 0
IsOpenOrClose capability =
    (capability ≡ lit "open_application") ⊎ (capability ≡ lit "close_application")

bagla_first :
    (query : Bytes)
    → contains query (lit "bagla") ≡ true
    → (r : KeywordEntry) × (first_keyword query router_init ≡ some r) × IsOpenOrClose r.capability
unfolding router_init
bagla_first query h =
    first_keyword-hit (λ k. IsOpenOrClose k.capability) query
      (record { keyword = lit "bagla"; capability = lit "close_application" })
      (take 29 (drop 3 pairs)) (take 2 pairs) h (inr refl) (inl refl, (inl refl, tt))

resolve-first :
    (keywords : List KeywordEntry) (req : Request) {k : KeywordEntry}
    → first_keyword (lower_query req.query) keywords ≡ some k
    → (i : Intent) × (router_resolve keywords req ≡ some i)
      × (i.required_capability ≡ strncpy 63 k.capability)
      × (i.target ≡ strncpy 127 (lower_query req.query))
unfolding router_resolve
resolve-first keywords req {k} e =
    let i : Intent = record {
      action = [];
      target = strncpy 127 (lower_query req.query);
      required_capability = strncpy 63 k.capability;
    } in
    (i, rw (e, router_resolve), refl, refl)

-- The keyword "baglat", meant for shutting the system down, is never reached: each query that holds
-- it is resolved to opening or to closing an application.
pub router_resolve_baglat :
    (req : Request)
    → contains (lower_query req.query) (lit "baglat") ≡ true
    → (i : Intent) × (router_resolve router_init req ≡ some i) × IsOpenOrClose i.required_capability
router_resolve_baglat req h =
    let (k, e, p) =
      bagla_first (lower_query req.query)
        (contains-part (lit "bagla") (lit "t") (lower_query req.query) h) in
    let (i, f, c, _) = resolve-first router_init req e in (i, f, open_or_close k.capability c p)
  where
    open_or_close : (c : Bytes) {d : Bytes} → d ≡ strncpy 63 c → IsOpenOrClose c → IsOpenOrClose d
    open_or_close c e (inl p) = inl (e ∙ ap (strncpy 63) p)
    open_or_close c e (inr p) = inr (e ∙ ap (strncpy 63) p)
