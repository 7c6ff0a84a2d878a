-- ===== src/Wsman/Client/Construction.antt =====
-- wsman/client.go: `NewClient`, from the endpoint and the options to the client, with the recorder of
-- wsman/record.go, which is attached last.
use go_wsman.Common.{
  ℕ, Bool, true, false, not, ◌&&◌, Option, none, some, List, [], Bytes, codes, str_eq, is_empty,
  if◌then◌else◌, Result, ok, err,
}
use go_wsman.Common.Results.{◌>>=◌, ◌>>◌}
use go_wsman.Wsman.Recorder.{Url, new_anonymizer}
use go_wsman.Wsman.Client.{
  RoundTripper, recording, no_tripper, other_tripper, HttpTransport, RetryConfig, ClientError,
  invalid_url, invalid_scheme, missing_host, no_transport, no_directory, Client, ClientOption,
  Files, new_http_transport, with_tripper, apply_insecure_skip_verify, apply_options, set_transport,
}

abbrev pub refuse : Bool → ClientError → Result ClientError (Unit {0})
refuse bad e = if bad then err e else ok tt

-- `&Client{endpoint: endpoint}`
abbrev pub new : Client
new = record {
  transport = none;
  timeout = 0;
  timeout_set = false;
  retry_config = none;
  insecure_skip_verify = false;
  record_dir = [];
  record_name = [];
  record_scrub = [];
  recorder = none;
  opt_err = none;
}

-- the tests of the parsed endpoint
unfoldable pub check_url : Option Url → Result ClientError Url
check_url none = err invalid_url
check_url (some u) = do
  refuse (not (str_eq u.scheme (codes "http")) && not (str_eq u.scheme (codes "https")))
      invalid_scheme
  refuse (is_empty u.host) missing_host
  ok u

abbrev pub given_transport : Option HttpTransport → HttpTransport
given_transport none = new_http_transport none
given_transport (some t) = t

abbrev pub timed : Bool → ℕ → HttpTransport → HttpTransport
timed false d t = t
timed true d t = record t { http_client = record t.http_client { timeout = d } }

abbrev pub retried : Option RetryConfig → HttpTransport → HttpTransport
retried none t = t
retried (some r) t = record t { max_retries = r.max_retries; retry_base_delay = r.retry_base_delay }

abbrev pub unverified : Bool → HttpTransport → HttpTransport
unverified false t = t
unverified true t = apply_insecure_skip_verify t

-- the transport behind the options that wait for it: the timeout, the retries, the verification
unfoldable pub final_transport : Client → HttpTransport
final_transport c =
    unverified c.insecure_skip_verify
      (retried c.retry_config (timed c.timeout_set c.timeout (given_transport c.transport)))

-- `http.DefaultTransport` in the place of nil
abbrev pub next_tripper : RoundTripper → RoundTripper
next_tripper no_tripper = other_tripper (codes "http.DefaultTransport")
next_tripper rt = rt

abbrev pub recorded_transport : HttpTransport → HttpTransport
recorded_transport t = with_tripper t (recording (next_tripper t.http_client.transport))

abbrev attach : Url → Client → HttpTransport → Client
attach u c t = record c {
  transport = some (recorded_transport t);
  recorder = some (new_anonymizer (some u) c.record_scrub);
}

abbrev attach_to : Url → Client → Option HttpTransport → Bool → Result ClientError Client
attach_to u c none made = err no_transport
attach_to u c (some t) false = err no_directory
attach_to u c (some t) true = ok (attach u c t)

module _ (files : Files) where
  -- `attachRecorder`
  unfoldable pub attach_recorder : Url → Client → Result ClientError Client
  attach_recorder u c =
      if is_empty c.record_dir
      then ok c
      else attach_to u c c.transport (files.make_dir c.record_dir)

  abbrev pub without_error : Option ClientError → Result ClientError (Unit {0})
  without_error none = ok tt
  without_error (some e) = err e

  -- `NewClient`, behind the tests of the endpoint
  unfoldable pub finish_client : Url → Client → Result ClientError Client
  unfolding final_transport attach_recorder
  finish_client u c = do
    without_error c.opt_err
    attach_recorder u (set_transport (final_transport c) c)

  -- `NewClient`
  unfoldable pub new_client : Bytes → List ClientOption → Result ClientError Client
  unfolding check_url finish_client apply_options
  new_client endpoint options = do
    u ← check_url (files.parse_url endpoint)
    finish_client u (apply_options files options new)
