-- ===== src/Api/Middlewares.antt =====
-- backend/src/shared/middlewares/http.py: `HttpLoggingMiddleware`, without its log record, and
-- `SecurityHeadersMiddleware`, over the headers of a response.
use gamely.Base.{
  ◌≡◌, refl, ◌∙◌, ap, Bool, false, Option, none, some, List, [], ◌∷◌, ◌++◌, Text, codes, text_eq,
  text_eq_refl, lower, if◌then◌else◌, arith,
}
use gamely.Base.Uuid.{Uuid, uuid_text}

-- Names and values, in the order of the response. A name is compared without its case.
abbrev pub Headers : Type 0
Headers = List (Text × Text)

abbrev pub same_name : Text → Text → Bool
same_name a b = text_eq (lower a) (lower b)

abbrev pub get_header : Text → Headers → Option Text
get_header name [] = none
get_header name ((k, v) ∷ hs) = if same_name k name then some v else get_header name hs

-- `headers.setdefault(name, value)`
abbrev pub with_default : Text → Text → Headers → Option Text → Headers
with_default name value hs (some _) = hs
with_default name value hs none = hs ++ (name, value) ∷ []

unfoldable pub setdefault : Text → Text → Headers → Headers
setdefault name value hs = with_default name value hs (get_header name hs)

-- `headers[name] = value`: the first of the name takes the value, and the others go.
abbrev pub drop_header : Text → Headers → Headers
drop_header name [] = []
drop_header name ((k, v) ∷ hs) =
    let rest = drop_header name hs in if same_name k name then rest else (k, v) ∷ rest

unfoldable pub set_item : Text → Text → Headers → Headers
set_item name value [] = (name, value) ∷ []
set_item name value ((k, v) ∷ hs) =
    let rest = set_item name value hs in
    if same_name k name then (k, value) ∷ drop_header name hs else (k, v) ∷ rest

-- `SecurityHeadersMiddleware.dispatch`
unfoldable pub add_security_headers : Headers → Headers
add_security_headers hs =
    setdefault (codes "Referrer-Policy") (codes "strict-origin-when-cross-origin") (
      setdefault (codes "X-Frame-Options") (codes "DENY")
        (setdefault (codes "X-Content-Type-Options") (codes "nosniff") hs))

-- `request.headers.get("X-Request-ID") or str(uuid4())`
abbrev pub request_id : Option Text → Uuid → Text
request_id (some (c ∷ cs)) fresh = c ∷ cs
request_id _ fresh = uuid_text fresh

-- `HttpLoggingMiddleware.dispatch`
unfoldable pub add_request_id : Option Text → Uuid → Headers → Headers
add_request_id given fresh hs = set_item (codes "X-Request-ID") (request_id given fresh) hs

abbrev pub or_else : Option Text → Text → Text
or_else none d = d
or_else (some v) d = v

get-append :
    (name : Text) (hs : Headers) (k v : Text)
    → get_header name hs ≡ none
    → get_header name (hs ++ (k, v) ∷ []) ≡ (if same_name k name then some v else none)
get-append name [] k v h = refl
get-append name ((j, u) ∷ hs) k v h = ground (arith, get-append name hs k v)

get-append_other :
    (name : Text) (hs : Headers) (k v : Text)
    → same_name k name ≡ false
    → get_header name (hs ++ (k, v) ∷ []) ≡ get_header name hs
get-append_other name [] k v h = rw h refl
get-append_other name ((j, u) ∷ hs) k v h = ground (arith, get-append_other name hs k v h)

default-get :
    (name value : Text) (hs : Headers) (o : Option Text)
    → get_header name hs ≡ o
    → get_header name (with_default name value hs o) ≡ some (or_else o value)
default-get name value hs (some v) e = e
default-get name value hs none e =
    get-append name hs name value e ∙ rw (text_eq_refl (lower name)) refl

default-other :
    (name value other : Text) (hs : Headers) (o : Option Text)
    → same_name name other ≡ false
    → get_header other (with_default name value hs o) ≡ get_header other hs
default-other name value other hs (some v) h = refl
default-other name value other hs none h = get-append_other other hs name value h

module _ (name value : Text) (hs : Headers) where
  setdefault-get :
      get_header name (setdefault name value hs) ≡ some (or_else (get_header name hs) value)
  unfolding setdefault
  setdefault-get = default-get name value hs (get_header name hs) refl

  setdefault-other :
      (other : Text)
      → same_name name other ≡ false
      → get_header other (setdefault name value hs) ≡ get_header other hs
  unfolding setdefault
  setdefault-other other h = default-other name value other hs (get_header name hs) h

-- Every response leaves the middleware with the three headers: with the value that the endpoint gave
-- one, and otherwise with the safe default; any header of another name is as it was.
pub add_security_headers-get :
    (hs : Headers) (other : Text)
    → same_name (codes "X-Content-Type-Options") other ≡ false
    → same_name (codes "X-Frame-Options") other ≡ false
    → same_name (codes "Referrer-Policy") other ≡ false
    → (get_header (codes "X-Content-Type-Options") (add_security_headers hs)
        ≡ some (or_else (get_header (codes "X-Content-Type-Options") hs) (codes "nosniff")))
      × (get_header (codes "X-Frame-Options") (add_security_headers hs)
          ≡ some (or_else (get_header (codes "X-Frame-Options") hs) (codes "DENY")))
      × (get_header (codes "Referrer-Policy") (add_security_headers hs)
          ≡ some (
              or_else
                (get_header (codes "Referrer-Policy") hs)
                (codes "strict-origin-when-cross-origin")))
      × (get_header other (add_security_headers hs) ≡ get_header other hs)
unfolding add_security_headers
add_security_headers-get hs other a b c =
    let options = codes "X-Content-Type-Options" in
    let frame = codes "X-Frame-Options" in
    let referrer = codes "Referrer-Policy" in
    let sniff = setdefault options (codes "nosniff") hs in
    let deny = setdefault frame (codes "DENY") sniff in
    (
      setdefault-other referrer (codes "strict-origin-when-cross-origin") deny options refl
          ∙ setdefault-other frame (codes "DENY") sniff options refl
          ∙ setdefault-get options (codes "nosniff") hs,
      setdefault-other referrer (codes "strict-origin-when-cross-origin") deny frame refl
          ∙ setdefault-get frame (codes "DENY") sniff
          ∙ ap (λ o. some (or_else o (codes "DENY")))
              (setdefault-other options (codes "nosniff") hs frame refl),
      setdefault-get referrer (codes "strict-origin-when-cross-origin") deny
          ∙ ap (λ o. some (or_else o (codes "strict-origin-when-cross-origin")))
              (setdefault-other frame (codes "DENY") sniff referrer refl
                ∙ setdefault-other options (codes "nosniff") hs referrer refl),
      setdefault-other referrer (codes "strict-origin-when-cross-origin") deny other c
          ∙ setdefault-other frame (codes "DENY") sniff other b
          ∙ setdefault-other options (codes "nosniff") hs other a,
    )
