-- ===== src/Cluster/Address.antt =====
-- server/utils/http.go: the scheme of an address.
use casbin_mesh.Prelude.{
  Str, str, Bool, true, ◌≡◌, refl, ◌||◌, not, [], ◌∷◌, ◌++◌, arith, nat_eq, eq_iff, if◌then◌else◌,
  has_prefix, length, drop, Bool-cases, inl, inr,
}

-- `strings.Replace(s, old, new, 1)` for an `old` that is not blank
unfoldable pub replace_first : Str → Str → Str → Str
unfolding has_prefix
replace_first old new [] = []
replace_first old new (c ∷ s) =
    let rest = replace_first old new s in
    if has_prefix old (c ∷ s) then new ++ drop (length old) (c ∷ s) else c ∷ rest

unfoldable pub has_scheme : Str → Bool
has_scheme addr = has_prefix (str "http://") addr || has_prefix (str "https://") addr

unfoldable pub normalize_addr : Str → Str
unfolding has_scheme
normalize_addr addr = if not (has_scheme addr) then str "http://" ++ addr else addr

unfoldable pub ensure_https : Str → Str
unfolding has_scheme replace_first
ensure_https addr =
    if not (has_scheme addr)
    then str "https://" ++ addr
    else replace_first (str "http://") (str "https://") addr

-- A text that begins so is the prefix and the rest.
pub has_prefix-drop : (p s : Str) → has_prefix p s ≡ true → s ≡ p ++ drop (length p) s
unfolding has_prefix
has_prefix-drop [] s h = refl
has_prefix-drop (c ∷ p) [] h = ground arith
has_prefix-drop (c ∷ p) (d ∷ s) h = ground (arith, eq_iff c d, has_prefix-drop p s)

-- Whatever scheme an address has, `EnsureHTTPS` makes one that begins with "https://".
pub ensure_https-HasPrefix : (addr : Str) → has_prefix (str "https://") (ensure_https addr) ≡ true
unfolding ensure_https has_scheme
ensure_https-HasPrefix addr = elim (Bool-cases (has_prefix (str "https://") addr)) [
  | inl secure ↦ rw (has_prefix-drop (str "https://") addr secure) refl
  | inr other ↦ elim (Bool-cases (has_prefix (str "http://") addr)) [
    | inl plain ↦ rw (has_prefix-drop (str "http://") addr plain) refl
    | inr none_there ↦ rw (other, none_there) refl
  ]
]

-- An address that `NormalizeAddr` made has a scheme, and it leaves such an address as it is.
pub normalize_addr-HasScheme :
    (addr : Str)
    → (has_scheme (normalize_addr addr) ≡ true)
      × (normalize_addr (normalize_addr addr) ≡ normalize_addr addr)
unfolding normalize_addr has_scheme has_prefix
normalize_addr-HasScheme addr = elim (Bool-cases (has_scheme addr)) [
  | inl there ↦ (rw (there, there) refl, rw (there, there) refl)
  | inr missing ↦ (rw missing refl, rw missing refl)
]
