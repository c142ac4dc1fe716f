-- ===== src/OpenCode/Scan.antt =====
-- `_opencode_scan` of cross-domain-id-jag-vc/opencode-agent/app.py: the model's analysis of the source
-- that was fetched.
use agent_identity_demos.Prelude.{String, ◌<>◌, Bool, true, not, string_eq, if◌then◌else◌}
use agent_identity_demos.Prelude.Text.{is_empty, take_text, size, decimal}
use agent_identity_demos.Value.{Value, Fields, str, bool, obj, end, field, truthy}
use agent_identity_demos.Effects.{Exn, M, asks, pure, catch, ◌>>=◌, exn_text}
use agent_identity_demos.Step.{Step, step, reported, failed}
use agent_identity_demos.OpenCode.Config.{Config}
use agent_identity_demos.OpenCode.Finding.{parse_finding}
use agent_identity_demos.OpenCode.Model.{ask, error_of, error_message, reply_text}

-- `_MOCK_FINDING`
unfoldable pub mock_finding : Config → Fields
mock_finding cfg = field "id" (str "CWE-89") (
    field "title" (str "SQL injection via string-concatenated query") (
      field "severity" (str "HIGH") (
        field "file" (str cfg.scan_source_path)
          (field "detail" (str "User input is concatenated directly into a SQL statement.") end))))

-- A scan that reports the known finding, with what it says beside it.
unfoldable pub fallback : Config → String → String → Fields → Step → Step
unfolding mock_finding
fallback cfg repo scoped_intent beside s =
    reported "ok"
      (obj (
        field "repo" (str repo) (
          field "mock" (bool true) (
            field "badge_intent" (str scoped_intent)
              (field "finding" (obj (mock_finding cfg)) beside)))))
      s

abbrev scan_prompt : Config → String → String
scan_prompt cfg source =
    "You are a security code reviewer. Analyse the Java source below and identify the single most serious security weakness.\nDo not read files or run tools — everything you need is inline.\nReply with ONLY a JSON object: {\"id\":\"CWE-<n>\",\"title\":\"<short>\",\"severity\":\"HIGH|MEDIUM|LOW\",\"file\":\""
    <> (cfg.scan_source_path
        <> ("\",\"detail\":\"<one sentence>\"}\n\n```java\n" <> (take_text 6000 source <> "\n```")))

abbrev pub has_finding : Fields → Bool
has_finding finding = truthy (obj finding)

-- What the model's reply comes to: its finding, or the known one.
unfoldable pub scanned : Config → String → String → Step → Value → String → Fields → Step
unfolding fallback
scanned cfg repo scoped_intent s session_id text finding =
    if has_finding finding
    then reported "ok"
        (obj (
          field "repo" (str repo) (
            field "model" (str cfg.opencode_model) (
              field "session_id" session_id (
                field "badge_intent" (str scoped_intent) (
                  field "finding" (obj finding) (
                    field "decision" (str "cross-domain-remediation → Org B Triage") (
                      field "note"
                        (str "real analysis of source read from Org B under a gitea:read assertion")
                        end))))))))
        s
    else fallback cfg repo scoped_intent
        (field "raw" (str (take_text 400 text)) (
          field "note"
            (str
              "model reply was not parseable as a finding — fell back to the known fixture; the source itself was genuinely fetched and sent")
            end))
        s

abbrev finding_at : Config → String → M Fields
finding_at cfg text = asks (λ w. parse_finding w cfg.scan_source_path text)

unfoldable pub scan_answered : Config → String → String → Step → Value → Fields → M Step
unfolding fallback scanned parse_finding
scan_answered cfg repo scoped_intent s session_id reply = do
  info_error ← error_of reply
  if truthy info_error
      then (do
        message ← error_message info_error
        pure (
            fallback cfg repo scoped_intent
              (field "note"
                (str (
                  "model unavailable ("
                  <> (take_text 150 message
                      <> ") — source was still fetched through the trust chain; finding fell back to the known fixture")))
                end)
              s))
      else (do
        text ← reply_text reply
        finding ← finding_at cfg text
        pure (scanned cfg repo scoped_intent s session_id text finding))

abbrev pub scan_failed : Config → String → String → Step → Exn → M Step
scan_failed cfg repo scoped_intent s e = asks (λ w.
    fallback cfg repo scoped_intent
      (field "error" (str (take_text 200 (exn_text w e))) (
        field "note" (str "model call failed — source was still fetched through the trust chain")
          end))
      s)

unfoldable pub opencode_scan : Config → String → String → String → Bool → M Step
unfolding fallback
opencode_scan cfg repo source scoped_intent use_real =
    let s =
      step "scan"
        ("6. OpenCode analyses " <> (cfg.scan_source_path <> " (fetched under the read assertion)"))
        (decimal (size source)
          <> (" bytes from " <> (repo <> ("  agent=plan  model=" <> cfg.opencode_model)))) in
    if is_empty source
    then pure (failed "no source was fetched — nothing to analyse" s)
    else if not use_real
    then pure (
        fallback cfg repo scoped_intent
          (field "note"
            (str
              "[MOCKED analysis] source really was fetched through the trust chain; only the model call is skipped")
            end)
          s)
    else catch
        (ask cfg ("scan " <> repo) (scan_prompt cfg source) >>= λ asked.
          scan_answered cfg repo scoped_intent s asked.0 asked.1)
        (scan_failed cfg repo scoped_intent s)
