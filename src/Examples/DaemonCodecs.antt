-- ===== src/Examples/DaemonCodecs.antt =====
-- An encoding of the responses between daemons, whose keys are numbers.
use vpfs_iroh.Base.{ℕ, Str, Option, Result, success, failure, ◌≡◌, refl, ◌⊎◌, inl, inr}
use vpfs_iroh.Messages.{VpfsError, DaemonResponse, address_for}
use vpfs_iroh.Codec.{Codec, IsLawful}
use vpfs_iroh.Examples.Codecs.{
  str_codec, str_codec-IsLawful, usize_codec, usize_codec-IsLawful, option_codec,
  option_codec-IsLawful,
}
use vpfs_iroh.Examples.Sums.{sum_codec, sum_codec-IsLawful}
use vpfs_iroh.Examples.ClientCodecs.{
  either, either-IsLawful, error_codec, error_codec-IsLawful, result_codec, result_codec-IsLawful,
}

abbrev Done : Type 0
Done = Result (Unit {0}) VpfsError

abbrev done_of : ℕ ⊎ VpfsError → Done
done_of (inl n) = success tt
done_of (inr e) = failure e

abbrev of_done : Done → ℕ ⊎ VpfsError
of_done (success u) = inl 0
of_done (failure e) = inr e

of_done-back : (r : Done) → done_of (of_done r) ≡ r
of_done-back (success u) = refl
of_done-back (failure e) = refl

abbrev done_codec : Codec Done
done_codec = sum_codec usize_codec error_codec done_of of_done

done_codec-IsLawful : IsLawful done_codec
done_codec-IsLawful =
    sum_codec-IsLawful usize_codec error_codec done_of of_done usize_codec-IsLawful
      error_codec-IsLawful of_done-back

abbrev Responses : Type 0
Responses = (Str ⊎ (Done ⊎ Result ℕ VpfsError)) ⊎ (Done ⊎ (Done ⊎ Option ℕ))

abbrev response_of : Responses → DaemonResponse ℕ
response_of (inl (inl uri)) = DaemonResponse.place uri
response_of (inl (inr (inl r))) = DaemonResponse.read r
response_of (inl (inr (inr r))) = DaemonResponse.write r
response_of (inr (inl r)) = DaemonResponse.remove r
response_of (inr (inr (inl r))) = DaemonResponse.append_directory_entry r
response_of (inr (inr (inr key))) = address_for key

abbrev of_response : DaemonResponse ℕ → Responses
of_response (DaemonResponse.place uri) = inl (inl uri)
of_response (DaemonResponse.read r) = inl (inr (inl r))
of_response (DaemonResponse.write r) = inl (inr (inr r))
of_response (DaemonResponse.remove r) = inr (inl r)
of_response (DaemonResponse.append_directory_entry r) = inr (inr (inl r))
of_response (address_for key) = inr (inr (inr key))

of_response-back : (r : DaemonResponse ℕ) → response_of (of_response r) ≡ r
of_response-back (DaemonResponse.place uri) = refl
of_response-back (DaemonResponse.read r) = refl
of_response-back (DaemonResponse.write r) = refl
of_response-back (DaemonResponse.remove r) = refl
of_response-back (DaemonResponse.append_directory_entry r) = refl
of_response-back (address_for key) = refl

abbrev left_codec : Codec (Str ⊎ (Done ⊎ Result ℕ VpfsError))
left_codec = either str_codec (either done_codec (result_codec usize_codec))

left_codec-IsLawful : IsLawful left_codec
left_codec-IsLawful =
    either-IsLawful str_codec (either done_codec (result_codec usize_codec)) str_codec-IsLawful (
      either-IsLawful done_codec (result_codec usize_codec) done_codec-IsLawful
        (result_codec-IsLawful usize_codec usize_codec-IsLawful))

abbrev key_codec : Codec (Option ℕ)
key_codec = option_codec usize_codec

abbrev right_codec : Codec (Done ⊎ (Done ⊎ Option ℕ))
right_codec = either done_codec (either done_codec key_codec)

right_codec-IsLawful : IsLawful right_codec
right_codec-IsLawful =
    either-IsLawful done_codec (either done_codec key_codec) done_codec-IsLawful (
      either-IsLawful done_codec key_codec done_codec-IsLawful
        (option_codec-IsLawful usize_codec usize_codec-IsLawful))

abbrev pub response_codec : Codec (DaemonResponse ℕ)
response_codec = sum_codec left_codec right_codec response_of of_response

pub response_codec-IsLawful : IsLawful response_codec
response_codec-IsLawful =
    sum_codec-IsLawful left_codec right_codec response_of of_response left_codec-IsLawful
      right_codec-IsLawful of_response-back
