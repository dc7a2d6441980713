-- ===== src/Scanner/Url.antt =====
-- wg-ping.go and adapter/adapter.go, `urlToMetadata`; constant/metadata.go, the fields that it sets.
use go_warp_scanner.Common.Text.{Text, codes, text_eq, text_eq→≡, text_eq_iff}
use go_warp_scanner.Common.{
  ℕ, ◌≡◌, refl, subst, ◌≢◌, ◌↔◌, ◌⊎◌, inl, inr, Option, none, some, List, [], arith, if◌then◌else◌,
  Bool-cases,
}

-- The part of `url.URL` that is read, with `Hostname` and `Port` as fields.
pub record Url : Type 0 where
  pub scheme : Text
  pub hostname : Text
  pub port : Text

-- `Metadata`, with no destination address (`netip.Addr{}`) written `none`.
pub record Metadata : Type 0 where
  pub host : Text
  pub dst_ip : Option (List ℕ)
  pub dst_port : Text

pub data UrlError : Type 0 where
  parse_failed : UrlError
  unsupported_scheme : Text → UrlError

pub data UrlResult : Type 0 where
  ok : Metadata → UrlResult
  err : UrlError → UrlResult

abbrev https : Text
https = codes "https"

abbrev http : Text
http = codes "http"

-- The switch on the scheme where the URL names no port; `none` is its `default`.
default_port : Text → Option Text
default_port scheme =
    if text_eq scheme https
    then some (codes "443")
    else if text_eq scheme http
    then some (codes "80")
    else none

-- The port that is dialled; `none` is the error of the switch.
url_port : Url → Option Text
unfolding default_port
url_port u = if text_eq u.port [] then default_port u.scheme else some u.port

to_metadata : Text → Url → Option Text → UrlResult
to_metadata raw_url u none = err (unsupported_scheme raw_url)
to_metadata raw_url u (some port) =
    ok (record { host = u.hostname; dst_ip = none; dst_port = port })

-- `parse` is `url.Parse`, with `none` for its error.
unfoldable pub url_to_metadata : (Text → Option Url) → Text → UrlResult
unfolding url_port to_metadata
url_to_metadata parse raw_url = elim (parse raw_url) [
  | none ↦ err parse_failed
  | some u ↦ to_metadata raw_url u (url_port u)
]

-- The port that a dial to `u` uses: its own, else that of its scheme.
abbrev pub HasPort : Url → Text → Type 0
HasPort u p =
    ((u.port ≢ []) × (p ≡ u.port))
    ⊎ (((u.port ≡ []) × (u.scheme ≡ https) × (p ≡ codes "443"))
        ⊎ ((u.port ≡ []) × (u.scheme ≡ http) × (p ≡ codes "80")))

https≢http : https ≢ http
https≢http e = cc e

url_port→HasPort : (u : Url) (p : Text) → url_port u ≡ some p → HasPort u p
unfolding url_port
url_port→HasPort u p h = elim (Bool-cases (text_eq u.port [])) [
  | inl none_given ↦
      let empty : u.port ≡ [] = text_eq→≡ u.port [] none_given in
      elim (Bool-cases (text_eq u.scheme https)) [
        | inl s ↦
            let h' : some (codes "443") ≡ some p = rw (none_given, s) at h in
            inr (inl (empty, text_eq→≡ u.scheme https s, ground arith))
        | inr n ↦ elim (Bool-cases (text_eq u.scheme http)) [
          | inl s ↦
              let h' : some (codes "80") ≡ some p = rw (none_given, n, s) at h in
              inr (inr (empty, text_eq→≡ u.scheme http s, ground arith))
          | inr m ↦ let h' : none ≡ some p = rw (none_given, n, m) at h in absurd (cc)
        ]
      ]
  | inr given ↦
      let h' : some u.port ≡ some p = rw given at h in
      inl (λ e. ground (arith, (text_eq_iff u.port []).1 e), ground arith)
]

HasPort→url_port : (u : Url) (p : Text) → HasPort u p → url_port u ≡ some p
unfolding url_port
HasPort→url_port u p (inl (given, e)) = elim (Bool-cases (text_eq u.port [])) [
  | inl none_given ↦ absurd (given (text_eq→≡ u.port [] none_given))
  | inr test ↦ rw (test, e)
]
HasPort→url_port u p (inr (inl (empty, s, e))) =
    rw ((text_eq_iff u.port []).1 empty, (text_eq_iff u.scheme https).1 s, e)
HasPort→url_port u p (inr (inr (empty, s, e))) = rw (empty, s, e)

-- Metadata is returned exactly for a URL that parses and has a port, or the scheme http or https;
-- it names the host of the URL, and its port, else the default port of the scheme.
pub url_to_metadata-ok :
    (parse : Text → Option Url) (raw_url : Text) (u : Url) (m : Metadata)
    → parse raw_url ≡ some u
    → (url_to_metadata parse raw_url ≡ ok m)
      ↔ ((m.host ≡ u.hostname) × (m.dst_ip ≡ none) × HasPort u m.dst_port)
unfolding url_to_metadata
url_to_metadata-ok parse raw_url u m e = (there (url_port u) refl, back)
  where
    there :
        (o : Option Text)
        → url_port u ≡ o
        → url_to_metadata parse raw_url ≡ ok m
        → (m.host ≡ u.hostname) × (m.dst_ip ≡ none) × HasPort u m.dst_port
    there none q h =
        let h' : err (unsupported_scheme raw_url) ≡ ok m = rw (e, url_to_metadata, q) at h in
        absurd (cc)
    there (some p) q h =
        let h' : ok (record { host = u.hostname; dst_ip = none; dst_port = p }) ≡ ok m =
          rw (e, url_to_metadata, q) at h in
        let port : p ≡ m.dst_port = ground arith in
        (ground arith, ground arith, subst (HasPort u) port (url_port→HasPort u p q))

    back :
        (m.host ≡ u.hostname) × (m.dst_ip ≡ none) × HasPort u m.dst_port
        → url_to_metadata parse raw_url ≡ ok m
    back (h, i, p) = rw (e, url_to_metadata, HasPort→url_port u m.dst_port p) (ground arith)
