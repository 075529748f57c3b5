-- ===== src/Resource/Headers.antt =====
-- The protected headers of src/middleware/resource.ts: the guards that
-- `installExpressProtectedHeaders` puts on the calls of a response, and `protectedFetchHeaders`. Names
-- of headers do not differ by capitals.
use x.Prelude.{ℕ, Option, none, some, List, [], ◌∷◌, if◌then◌else◌, codes, same_list, nat_eq, ◌||◌}
use x.Transport.{merge_vary, to_lower_case}

-- The value of each header, by its name in small letters.
abbrev pub HeaderMap : Type 0
HeaderMap = List ℕ → Option (List ℕ)

abbrev pub cache_control : List ℕ
cache_control = codes "cache-control"

abbrev pub vary : List ℕ
vary = codes "vary"

abbrev pub human_proof : List ℕ
human_proof = codes "human-proof"

-- `X424_PROTECTED_CACHE_CONTROL`
abbrev pub protected_cache_control : List ℕ
protected_cache_control = codes "private, no-store"

-- `setHeader` and `removeHeader` of the platform.
unfoldable pub original_set_header : (name value : List ℕ) → HeaderMap → HeaderMap
original_set_header name value headers other =
    if same_list (to_lower_case name) other then some value else headers other

unfoldable pub original_remove_header : (name : List ℕ) → HeaderMap → HeaderMap
original_remove_header name headers other =
    if same_list (to_lower_case name) other then none else headers other

unfoldable pub force_protected_headers : HeaderMap → HeaderMap
force_protected_headers headers =
    let private' = original_set_header cache_control protected_cache_control headers in
    original_set_header vary (merge_vary (private' vary) (human_proof ∷ [])) private'

unfoldable pub set_header : (name value : List ℕ) → HeaderMap → HeaderMap
set_header name value headers =
    if same_list (to_lower_case name) cache_control
    then original_set_header name protected_cache_control headers
    else if same_list (to_lower_case name) vary
    then original_set_header name (merge_vary (headers vary) (value ∷ human_proof ∷ [])) headers
    else original_set_header name value headers

unfoldable pub remove_header : (name : List ℕ) → HeaderMap → HeaderMap
remove_header name headers =
    if same_list (to_lower_case name) cache_control || same_list (to_lower_case name) vary
    then force_protected_headers headers
    else original_remove_header name headers

-- The headers that `writeHead` is given are set one by one.
unfoldable pub set_headers : List (List ℕ × List ℕ) → HeaderMap → HeaderMap
set_headers [] headers = headers
set_headers ((name, value) ∷ rest) headers = set_headers rest (set_header name value headers)

-- The headers that are sent.
unfoldable pub write_head : List (List ℕ × List ℕ) → HeaderMap → HeaderMap
write_head given headers = force_protected_headers (set_headers given headers)

-- What a route may call on the response.
pub data HeaderCall : Type 0 where
  set : (name value : List ℕ) → HeaderCall
  remove : (name : List ℕ) → HeaderCall
  write : List (List ℕ × List ℕ) → HeaderCall

unfoldable pub call : HeaderCall → HeaderMap → HeaderMap
call (set name value) headers = set_header name value headers
call (remove name) headers = remove_header name headers
call (write given) headers = write_head given headers

unfoldable pub run : List HeaderCall → HeaderMap → HeaderMap
run [] headers = headers
run (c ∷ cs) headers = run cs (call c headers)

-- The response of a protected route: the guards are installed, and the route makes its calls.
unfoldable pub guarded_run : List HeaderCall → HeaderMap → HeaderMap
guarded_run calls headers = run calls (force_protected_headers headers)

-- `protectedFetchHeaders`: what the headers are made from is kept beside the two.
unfoldable pub protected_fetch_headers : HeaderMap → HeaderMap
protected_fetch_headers initial = force_protected_headers initial
