-- ===== src/Examples/ClientCodecs.antt =====
-- An encoding of the messages between clients and daemons: choices as a tag and its content.
use vpfs_iroh.Base.{ℕ, zero, suc, Str, Result, success, failure, ◌≡◌, refl, ◌⊎◌, inl, inr}
use vpfs_iroh.Messages.{
  Location, DirectoryEntry, VpfsError, only_in_cache, cache_needed_for_traversal, not_modified,
  does_not_exist, not_found, not_accessible, not_a_directory, already_exists, other, ClientRequest,
  ClientResponse,
}
use vpfs_iroh.Codec.{Codec, IsLawful}
use vpfs_iroh.Examples.Codecs.{
  str_codec, str_codec-IsLawful, usize_codec, usize_codec-IsLawful, pair_codec, pair_codec-IsLawful,
  location_codec, location_codec-IsLawful, entry_codec, entry_codec-IsLawful,
}
use vpfs_iroh.Examples.Sums.{sum_codec, sum_codec-IsLawful}

-- Two values one after the other.
abbrev both : {A B : Type 0} → Codec A → Codec B → Codec (A × B)
both a b = pair_codec a b (λ x y. (x, y)) (λ p. p.0) (λ p. p.1)

both-IsLawful :
    {A B : Type 0} → (a : Codec A) (b : Codec B) → IsLawful a → IsLawful b → IsLawful (both a b)
both-IsLawful a b la lb = pair_codec-IsLawful a b _ _ _ la lb (λ p. refl)

-- A value of the first type or of the second.
abbrev pub either : {A B : Type 0} → Codec A → Codec B → Codec (A ⊎ B)
either a b = sum_codec a b (λ x. x) (λ x. x)

pub either-IsLawful :
    {A B : Type 0} → (a : Codec A) (b : Codec B) → IsLawful a → IsLawful b → IsLawful (either a b)
either-IsLawful a b la lb = sum_codec-IsLawful a b _ _ la lb (λ x. refl)

abbrev result_of : {A E : Type 0} → A ⊎ E → Result A E
result_of (inl a) = success a
result_of (inr e) = failure e

abbrev of_result : {A E : Type 0} → Result A E → A ⊎ E
of_result (success a) = inl a
of_result (failure e) = inr e

of_result-back : {A E : Type 0} → (r : Result A E) → result_of (of_result r) ≡ r
of_result-back (success a) = refl
of_result-back (failure e) = refl

abbrev Errors : Type 0
Errors = (Location ⊎ DirectoryEntry) ⊎ (DirectoryEntry ⊎ (Str ⊎ ℕ))

abbrev numbered : ℕ → VpfsError
numbered zero = not_modified
numbered (suc zero) = does_not_exist
numbered (suc (suc zero)) = not_found
numbered (suc (suc (suc zero))) = not_accessible
numbered n = not_a_directory

abbrev error_of : Errors → VpfsError
error_of (inl (inl place)) = only_in_cache place
error_of (inl (inr entry)) = cache_needed_for_traversal entry
error_of (inr (inl entry)) = already_exists entry
error_of (inr (inr (inl text))) = other text
error_of (inr (inr (inr n))) = numbered n

abbrev of_error : VpfsError → Errors
of_error (only_in_cache place) = inl (inl place)
of_error (cache_needed_for_traversal entry) = inl (inr entry)
of_error (already_exists entry) = inr (inl entry)
of_error (other text) = inr (inr (inl text))
of_error not_modified = inr (inr (inr 0))
of_error does_not_exist = inr (inr (inr 1))
of_error not_found = inr (inr (inr 2))
of_error not_accessible = inr (inr (inr 3))
of_error not_a_directory = inr (inr (inr 4))

of_error-back : (e : VpfsError) → error_of (of_error e) ≡ e
of_error-back (only_in_cache place) = refl
of_error-back (cache_needed_for_traversal entry) = refl
of_error-back (already_exists entry) = refl
of_error-back (other text) = refl
of_error-back not_modified = refl
of_error-back does_not_exist = refl
of_error-back not_found = refl
of_error-back not_accessible = refl
of_error-back not_a_directory = refl

abbrev pub error_codec : Codec VpfsError
error_codec =
    sum_codec (either location_codec entry_codec)
      (either entry_codec (either str_codec usize_codec)) error_of of_error

pub error_codec-IsLawful : IsLawful error_codec
error_codec-IsLawful =
    sum_codec-IsLawful (either location_codec entry_codec)
      (either entry_codec (either str_codec usize_codec)) error_of of_error
      (either-IsLawful location_codec entry_codec location_codec-IsLawful entry_codec-IsLawful)
      (either-IsLawful entry_codec (either str_codec usize_codec) entry_codec-IsLawful
        (either-IsLawful str_codec usize_codec str_codec-IsLawful usize_codec-IsLawful))
      of_error-back

abbrev pub result_codec : {A : Type 0} → Codec A → Codec (Result A VpfsError)
result_codec a = sum_codec a error_codec result_of of_result

pub result_codec-IsLawful : {A : Type 0} (a : Codec A) → IsLawful a → IsLawful (result_codec a)
result_codec-IsLawful a la =
    sum_codec-IsLawful a error_codec result_of of_result la error_codec-IsLawful of_result-back

abbrev Requests : Type 0
Requests = (Str ⊎ (Str × Str)) ⊎ ((Str × Str) ⊎ (Location ⊎ (Location × ℕ)))

abbrev request_of : Requests → ClientRequest
request_of (inl (inl path)) = ClientRequest.find path
request_of (inl (inr (path, at))) = ClientRequest.place path at
request_of (inr (inl (path, at))) = ClientRequest.mkdir path at
request_of (inr (inr (inl place))) = ClientRequest.read place
request_of (inr (inr (inr (place, len)))) = ClientRequest.write place len

abbrev of_request : ClientRequest → Requests
of_request (ClientRequest.find path) = inl (inl path)
of_request (ClientRequest.place path at) = inl (inr (path, at))
of_request (ClientRequest.mkdir path at) = inr (inl (path, at))
of_request (ClientRequest.read place) = inr (inr (inl place))
of_request (ClientRequest.write place len) = inr (inr (inr (place, len)))

of_request-back : (r : ClientRequest) → request_of (of_request r) ≡ r
of_request-back (ClientRequest.find path) = refl
of_request-back (ClientRequest.place path at) = refl
of_request-back (ClientRequest.mkdir path at) = refl
of_request-back (ClientRequest.read place) = refl
of_request-back (ClientRequest.write place len) = refl

abbrev path_codec : Codec (Str × Str)
path_codec = both str_codec str_codec

path_codec-IsLawful : IsLawful path_codec
path_codec-IsLawful = both-IsLawful str_codec str_codec str_codec-IsLawful str_codec-IsLawful

abbrev write_codec : Codec (Location × ℕ)
write_codec = both location_codec usize_codec

abbrev pub client_request_codec : Codec ClientRequest
client_request_codec =
    sum_codec (either str_codec path_codec) (either path_codec (either location_codec write_codec))
      request_of of_request

pub client_request_codec-IsLawful : IsLawful client_request_codec
client_request_codec-IsLawful =
    sum_codec-IsLawful (either str_codec path_codec)
      (either path_codec (either location_codec write_codec)) request_of of_request
      (either-IsLawful str_codec path_codec str_codec-IsLawful path_codec-IsLawful)
      (either-IsLawful path_codec (either location_codec write_codec) path_codec-IsLawful (
        either-IsLawful location_codec write_codec location_codec-IsLawful
          (both-IsLawful location_codec usize_codec location_codec-IsLawful usize_codec-IsLawful)))
      of_request-back

abbrev Placed : Type 0
Placed = Result Location VpfsError

abbrev Counted : Type 0
Counted = Result ℕ VpfsError

abbrev Responses : Type 0
Responses = (Result DirectoryEntry VpfsError ⊎ Placed) ⊎ (Placed ⊎ (Counted ⊎ Counted))

abbrev response_of : Responses → ClientResponse
response_of (inl (inl r)) = ClientResponse.find r
response_of (inl (inr r)) = ClientResponse.place r
response_of (inr (inl r)) = ClientResponse.mkdir r
response_of (inr (inr (inl r))) = ClientResponse.read r
response_of (inr (inr (inr r))) = ClientResponse.write r

abbrev of_response : ClientResponse → Responses
of_response (ClientResponse.find r) = inl (inl r)
of_response (ClientResponse.place r) = inl (inr r)
of_response (ClientResponse.mkdir r) = inr (inl r)
of_response (ClientResponse.read r) = inr (inr (inl r))
of_response (ClientResponse.write r) = inr (inr (inr r))

of_response-back : (r : ClientResponse) → response_of (of_response r) ≡ r
of_response-back (ClientResponse.find r) = refl
of_response-back (ClientResponse.place r) = refl
of_response-back (ClientResponse.mkdir r) = refl
of_response-back (ClientResponse.read r) = refl
of_response-back (ClientResponse.write r) = refl

abbrev find_codec : Codec (Result DirectoryEntry VpfsError)
find_codec = result_codec entry_codec

abbrev place_codec : Codec Placed
place_codec = result_codec location_codec

place_codec-IsLawful : IsLawful place_codec
place_codec-IsLawful = result_codec-IsLawful location_codec location_codec-IsLawful

abbrev count_codec : Codec Counted
count_codec = result_codec usize_codec

count_codec-IsLawful : IsLawful count_codec
count_codec-IsLawful = result_codec-IsLawful usize_codec usize_codec-IsLawful

abbrev pub client_response_codec : Codec ClientResponse
client_response_codec =
    sum_codec (either find_codec place_codec) (either place_codec (either count_codec count_codec))
      response_of of_response

pub client_response_codec-IsLawful : IsLawful client_response_codec
client_response_codec-IsLawful =
    sum_codec-IsLawful (either find_codec place_codec)
      (either place_codec (either count_codec count_codec)) response_of of_response
      (either-IsLawful find_codec place_codec
        (result_codec-IsLawful entry_codec entry_codec-IsLawful) place_codec-IsLawful)
      (either-IsLawful place_codec (either count_codec count_codec) place_codec-IsLawful
        (either-IsLawful count_codec count_codec count_codec-IsLawful count_codec-IsLawful))
      of_response-back
