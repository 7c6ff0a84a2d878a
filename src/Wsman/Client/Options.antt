-- ===== src/Wsman/Client/Options.antt =====
-- wsman/client.go: the options whose place among the others does not matter.
use go_wsman.Common.{
  ℕ, ◌≡◌, refl, sym, ap, ◌∙◌, Option, none, some, List, [], ◌∷◌, ◌++◌, Bytes, All,
}
use go_wsman.Common.Results.{◌>>=◌}
use go_wsman.Wsman.Client.{
  Client, ClientOption, Files, with_timeout, with_retry, with_certificate,
  with_insecure_skip_verify, with_ca_cert, apply_option, apply_options, use_certificate, use_pool,
  use_ca_file,
}
use go_wsman.Wsman.Client.Construction.{new, check_url, finish_client, new_client}

-- the options that NewClient applies when the transport is settled
pub data LateOption : Type 0 where
  timeout : ℕ → LateOption
  retry : ℕ → LateOption
  skip_verification : LateOption

abbrev pub option_of : LateOption → ClientOption
option_of (timeout d) = with_timeout d
option_of (retry n) = with_retry n
option_of skip_verification = with_insecure_skip_verify

-- Another option of the same function may have another argument.
abbrev pub Apart : LateOption → ClientOption → Type 0
Apart (timeout d) (with_timeout e) = d ≡ e
Apart (retry n) (with_retry m) = n ≡ m
Apart _ _ = Unit {0}

module _ (files : Files) where
  late_swap_certificate :
      (l : LateOption) (cert : Option Bytes) (c : Client)
      → use_certificate cert (apply_option files (option_of l) c)
        ≡ apply_option files (option_of l) (use_certificate cert c)
  unfolding apply_option
  late_swap_certificate (timeout d) none c = refl
  late_swap_certificate (timeout d) (some x) c = refl
  late_swap_certificate (retry n) none c = refl
  late_swap_certificate (retry n) (some x) c = refl
  late_swap_certificate skip_verification none c = refl
  late_swap_certificate skip_verification (some x) c = refl

  late_swap_pool :
      (l : LateOption) (root_cas : Option Bytes) (c : Client)
      → use_pool root_cas (apply_option files (option_of l) c)
        ≡ apply_option files (option_of l) (use_pool root_cas c)
  unfolding apply_option
  late_swap_pool (timeout d) none c = refl
  late_swap_pool (timeout d) (some x) c = refl
  late_swap_pool (retry n) none c = refl
  late_swap_pool (retry n) (some x) c = refl
  late_swap_pool skip_verification none c = refl
  late_swap_pool skip_verification (some x) c = refl

  late_swap_ca :
      (l : LateOption) (pem : Option Bytes) (c : Client)
      → use_ca_file files.pool_of pem (apply_option files (option_of l) c)
        ≡ apply_option files (option_of l) (use_ca_file files.pool_of pem c)
  unfolding apply_option
  late_swap_ca (timeout d) none c = refl
  late_swap_ca (retry n) none c = refl
  late_swap_ca skip_verification none c = refl
  late_swap_ca l (some pem) c = late_swap_pool l (files.pool_of pem) c

  late_swap :
      (l : LateOption) (o : ClientOption) (c : Client)
      → Apart l o
      → apply_option files o (apply_option files (option_of l) c)
        ≡ apply_option files (option_of l) (apply_option files o c)
  unfolding apply_option
  late_swap l (with_certificate cert_file key_file) c a =
      late_swap_certificate l (files.load_key_pair cert_file key_file) c
  late_swap l (with_ca_cert ca_file) c a = late_swap_ca l (files.read_file ca_file) c
  late_swap (timeout d) (with_timeout e) c a = rw a refl
  late_swap (retry n) (with_retry m) c a = rw a refl
  late_swap (timeout d) _ c a = refl
  late_swap (retry n) _ c a = refl
  late_swap skip_verification _ c a = refl

  late_first :
      (l : LateOption) (before after : List ClientOption) (c : Client)
      → All (Apart l) before
      → apply_options files (before ++ option_of l ∷ after) c
        ≡ apply_options files (option_of l ∷ before ++ after) c
  unfolding apply_options
  late_first l [] after c h = refl
  late_first l (o ∷ before) after c (here, h) =
      late_first l before after (apply_option files o c) h
      ∙ ap (apply_options files (before ++ after)) (sym (late_swap l o c here))

  -- The timeout, the retries and the choice not to verify certificates may stand anywhere among the
  -- options: with the same endpoint, `NewClient` returns the same client, or the same error, as with
  -- the option at the front, unless an option of the same function with another argument stands
  -- before it.
  pub new_client_late :
      (endpoint : Bytes) (l : LateOption) (before after : List ClientOption)
      → All (Apart l) before
      → new_client files endpoint (before ++ option_of l ∷ after)
        ≡ new_client files endpoint (option_of l ∷ before ++ after)
  unfolding new_client
  new_client_late endpoint l before after h =
      ap (λ c. check_url (files.parse_url endpoint) >>= λ u. finish_client files u c)
        (late_first l before after new h)
