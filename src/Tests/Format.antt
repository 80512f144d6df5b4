-- ===== src/Tests/Format.antt =====
-- A wire format for the tests: numbers as they are, and data by numbers greater by one, up to a
-- zero. It is faithful.
use cache_system_of_lease_me.Base.{
  ℕ, zero, suc, ◌≡◌, ◌≢◌, refl, ap, List, [], ◌∷◌, Option, none, some,
}
use cache_system_of_lease_me.Message.{
  CacheDataType, CacheMessageHeader, CacheReadRequest, CacheUpdateRequest, CacheOpResponse,
  CacheMessage, Wire, IsWritten,
}
use cache_system_of_lease_me.Message.Fitting.{IsFaithful}

-- A part of a message and the rest of the bytes.
abbrev Parsed : Type 0 → Type 0
Parsed A = Option (A × List ℕ)

put_data : CacheDataType → List ℕ → List ℕ
put_data [] rest = 0 ∷ rest
put_data (b ∷ bs) rest = suc b ∷ put_data bs rest

get_data : List ℕ → CacheDataType × List ℕ
get_data [] = ([], [])
get_data (zero ∷ rest) = ([], rest)
get_data (suc b ∷ rest) = let (bs, left) = get_data rest in (b ∷ bs, left)

get_data-put_data : (v : CacheDataType) (rest : List ℕ) → get_data (put_data v rest) ≡ (v, rest)
unfolding get_data put_data
get_data-put_data [] rest = refl
get_data-put_data (b ∷ bs) rest =
    ap (λ (x : CacheDataType × List ℕ). (b ∷ x.0, x.1)) (get_data-put_data bs rest)

put_header : Option CacheMessageHeader → List ℕ → List ℕ
put_header none rest = 0 ∷ rest
put_header (some h) rest = 1 ∷ h.magic ∷ h.version ∷ h.type ∷ h.op_id ∷ rest

get_header : List ℕ → Parsed (Option CacheMessageHeader)
get_header (zero ∷ rest) = some (none, rest)
get_header (suc _ ∷ magic ∷ version ∷ type ∷ op_id ∷ rest) =
    some (some (record { magic = magic; version = version; type = type; op_id = op_id }), rest)
get_header _ = none

get_header-put_header :
    (o : Option CacheMessageHeader) (rest : List ℕ)
    → get_header (put_header o rest) ≡ some (o, rest)
unfolding get_header put_header
get_header-put_header none rest = refl
get_header-put_header (some h) rest = refl

put_read : Option CacheReadRequest → List ℕ → List ℕ
put_read none rest = 0 ∷ rest
put_read (some r) rest = 1 ∷ r.timestamp ∷ r.expire ∷ r.cache_id ∷ rest

get_read : List ℕ → Parsed (Option CacheReadRequest)
get_read (zero ∷ rest) = some (none, rest)
get_read (suc _ ∷ timestamp ∷ expire ∷ cache_id ∷ rest) =
    some (some (record { timestamp = timestamp; expire = expire; cache_id = cache_id }), rest)
get_read _ = none

get_read-put_read :
    (o : Option CacheReadRequest) (rest : List ℕ) → get_read (put_read o rest) ≡ some (o, rest)
unfolding get_read put_read
get_read-put_read none rest = refl
get_read-put_read (some h) rest = refl

put_update : Option CacheUpdateRequest → List ℕ → List ℕ
put_update none rest = 0 ∷ rest
put_update (some u) rest = 1 ∷ u.timestamp ∷ u.expire ∷ u.cache_id ∷ put_data u.cache_data rest

get_update : List ℕ → Parsed (Option CacheUpdateRequest)
unfolding get_data
get_update (zero ∷ rest) = some (none, rest)
get_update (suc _ ∷ timestamp ∷ expire ∷ cache_id ∷ rest) =
    let (v, left) = get_data rest in
    some (
      some (record { timestamp = timestamp; expire = expire; cache_id = cache_id; cache_data = v }),
      left,
    )
get_update _ = none

get_update-put_update :
    (o : Option CacheUpdateRequest) (rest : List ℕ)
    → get_update (put_update o rest) ≡ some (o, rest)
unfolding get_update put_update
get_update-put_update none rest = refl
get_update-put_update (some u) rest =
    ap (λ (x : CacheDataType × List ℕ). some (some (record u { cache_data = x.0 }), x.1))
      (get_data-put_data u.cache_data rest)

put_response : Option CacheOpResponse → List ℕ → List ℕ
put_response none rest = 0 ∷ rest
put_response (some r) rest =
    1 ∷ r.result ∷ r.timestamp ∷ r.expire ∷ r.cache_id ∷ put_data r.cache_data rest

get_response : List ℕ → Parsed (Option CacheOpResponse)
unfolding get_data
get_response (zero ∷ rest) = some (none, rest)
get_response (suc _ ∷ result ∷ timestamp ∷ expire ∷ cache_id ∷ rest) =
    let (v, left) = get_data rest in
    some (
      some (record {
        result = result;
        timestamp = timestamp;
        expire = expire;
        cache_id = cache_id;
        cache_data = v;
      }),
      left,
    )
get_response _ = none

get_response-put_response :
    (o : Option CacheOpResponse) (rest : List ℕ)
    → get_response (put_response o rest) ≡ some (o, rest)
unfolding get_response put_response
get_response-put_response none rest = refl
get_response-put_response (some r) rest =
    ap (λ (x : CacheDataType × List ℕ). some (some (record r { cache_data = x.0 }), x.1))
      (get_data-put_data r.cache_data rest)

infixl 5 ◌then_parse◌
◌then_parse◌ : {A B : Type 0} → Parsed A → (A → List ℕ → Option B) → Option B
o then_parse f = elim o [ none ↦ none | some (a, rest) ↦ f a rest ]

pub parse : List ℕ → Option CacheMessage
unfolding get_header get_read get_update get_response ◌then_parse◌
parse bytes = get_header bytes then_parse λ h rest. get_read rest then_parse λ r left.
    get_update left then_parse λ u more. get_response more then_parse λ o end.
    some (record { header = h; read_request = r; update_request = u; op_response = o })

pub serialize : CacheMessage → List ℕ
unfolding put_header put_read put_update put_response put_data
serialize m =
    put_header m.header
      (put_read m.read_request (put_update m.update_request (put_response m.op_response [])))

abbrev pub format : Wire
format = record { parse = parse; serialize = serialize }

pub format-IsFaithful : IsFaithful format
unfolding parse serialize ◌then_parse◌
format-IsFaithful m fits =
    rw
      (
        get_header-put_header m.header _,
        get_read-put_read m.read_request _,
        get_update-put_update m.update_request _,
        get_response-put_response m.op_response [],
      )
      refl

put_header-written : (o : Option CacheMessageHeader) (rest : List ℕ) → put_header o rest ≢ []
unfolding put_header
put_header-written none rest e = cc
put_header-written (some h) rest e = cc

pub format-IsWritten : IsWritten format
unfolding serialize
format-IsWritten m h there typed e = put_header-written m.header _ e
