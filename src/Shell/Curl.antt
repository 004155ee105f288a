-- ===== src/Shell/Curl.antt =====
-- The `curl` command of kernel/core/shell.c.
use flare_os.Prelude.{
  ℕ, zero, suc, ◌+◌, ◌*◌, ◌%◌, ◌^◌, Bool, true, false, not, ◌&&◌, List, [], ◌∷◌, ◌++◌, Option, none,
  some, ltb, leb, ◌==◌, if◌then◌else◌, length, take,
}
use flare_os.BlockDevice.{BlockDevice}
use flare_os.FlareFs.State.{Fs}
use flare_os.FlareFs.Ops.{fs_write_file}
use flare_os.Shell.Text.{bytes, append_text, append_u64_dec}
use flare_os.Shell.State.{Shell, Env, Services, say}
use flare_os.Shell.Files.{say_all}
use flare_os.Shell.Words.{skip_spaces, token, token_end, drop_prefix}
use flare_os.Shell.Status.{then_text}

-- `output_name` and `form_body`; the form is there when `has_form` is set.
pub record Options : Type 0 where
  pub output_name : List ℕ
  pub form_body : Option (List ℕ)

-- A word that does not fit is left out.
unfoldable pub set_output : Options → List ℕ → Options
set_output o word =
    if ltb 0 (length word) && ltb (length word) 63 then record o { output_name = word } else o

unfoldable pub add_field : Options → List ℕ → Options
add_field o word = elim o.form_body [
  | none ↦
      if ltb 0 (length word) && ltb (length word) 511 then record o { form_body = some word } else o
  | some form ↦
      if ltb 0 (length word) && ltb (length form + 1 + length word) 511
      then record o { form_body = some (form ++ b'&' ∷ word) }
      else o
]

-- One round of the loop over the flags: the options and the text behind the pointer, and whether the
-- loop goes on.
unfoldable pub curl_flag : Options → List ℕ → Bool × Options × List ℕ
curl_flag o [] = (false, o, [])
curl_flag o (dash ∷ []) = (false, o, if dash == b'-' then [] else dash ∷ [])
curl_flag o (dash ∷ flag ∷ text) =
    let arg = skip_spaces text in
    if not (dash == b'-')
    then (false, o, dash ∷ flag ∷ text)
    else if flag == b' '
    then (false, o, flag ∷ text)
    else if length arg == 0
    then (false, o, [])
    else if flag == b'o'
    then (true, set_output o (token arg), token_end arg)
    else if flag == b'F'
    then (true, add_field o (token arg), token_end arg)
    else (false, o, arg)

-- A round takes two characters at least, so the length of the text is enough.
unfoldable pub curl_flags : ℕ → Options → List ℕ → Options × List ℕ
curl_flags zero o text = (o, text)
curl_flags (suc left) o text =
    let (goes_on, o', rest) = curl_flag o (skip_spaces text) in
    let next = curl_flags left o' rest in if goes_on then next else (o', rest)

unfoldable pub hash : ℕ → List ℕ → ℕ
hash h [] = h
hash h (c ∷ text) = hash ((h * 31 + c) % 2 ^ 32) text

unfoldable pub response_name : List ℕ → List ℕ → List ℕ
response_name output target =
    if length output == 0
    then append_u64_dec 32 (then_text 32 [] "resp") (hash 0 target % 1000)
    else take 31 output

-- The lines of a response that are shown: a line of 80 characters is the last.
unfoldable pub response_lines : List ℕ → List ℕ → List (List ℕ)
response_lines line [] = if length line == 0 then [] else line ∷ []
response_lines line (ch ∷ content) =
    let ended = response_lines [] content in
    let longer = response_lines (line ++ (ch ∷ [])) content in
    let skipped = response_lines line content in
    if leb 80 (length line)
    then line ∷ []
    else if ch == 10
    then line ∷ ended
    else if leb b' ' ch && ltb ch 128
    then longer
    else skipped

module _ {D W : Type 0} (dev : BlockDevice D) (services : Services W) where
  -- From the response on.
  unfoldable pub curl_result : Env → Fs → D → Shell → ℕ → List ℕ → Options → List ℕ → Shell × Fs × D
  curl_result env fs d sh index target o body =
      let name = response_name o.output_name target in
      let size = append_u64_dec 64 (then_text 64 [] "curl: got ") (length body) in
      let sh1 = say env sh index (then_text 64 size " bytes") in
      let saved = append_text 64 (then_text 64 [] "curl: saved to ") name in
      let (ok, fs', d') = fs_write_file dev fs d name body false in
      if length o.output_name == 0
      then (say_all env sh1 index (response_lines [] body), fs, d)
      else if not fs.writable
      then (say env sh1 index (bytes "curl: read-only fs"), fs, d)
      else if ok
      then (say env sh1 index saved, fs', d')
      else (say env sh1 index (bytes "curl: write failed"), fs', d')

  unfoldable pub fetch : Options → List ℕ → W → Option (List ℕ) × W
  fetch o target w = elim o.form_body [
    | none ↦ services.net_http_get target w
    | some form ↦ services.net_http_post target form w
  ]

  unfoldable pub shell_curl : Env → Fs → D → W → Shell → ℕ → List ℕ → Shell × Fs × D × W
  shell_curl env fs d w sh index url =
      let no_options : Options = record { output_name = []; form_body = none } in
      let (o, rest) = curl_flags (length url) no_options url in
      let target = skip_spaces rest in
      let (response, w') = fetch o target w in
      let sh1 = say env sh index (bytes "curl: fetching...") in
      if not (services.net_is_ready w)
      then (say env sh index (bytes "net: network not ready"), fs, d, w)
      else if length target == 0
      then (say env sh index (bytes "curl: missing URL"), fs, d, w)
      else elim (drop_prefix (bytes "http://") target) [
        | none ↦ (say env sh index (bytes "curl: only http:// URLs supported"), fs, d, w)
        | some host ↦ elim response [
          | none ↦ (say env sh1 index (bytes "curl: failed"), fs, d, w')
          | some body ↦
              (let (sh', fs', d') = curl_result env fs d sh1 index target o body in
                (sh', fs', d', w'))
        ]
      ]
