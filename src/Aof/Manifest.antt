-- ===== src/Aof/Manifest.antt =====
-- The line that Init writes into the manifest, read by GetActiveIncrementalFileName.
use redis_in_go.Prelude.{
  ◌≡◌, ◌≢◌, refl, ◌++◌, Bool, true, false, List, [], ◌∷◌, none, some, arith, append_assoc,
  append-nil, not, ◌&&◌, ap, ◌∙◌,
}
use redis_in_go.Text.{Bytes, codes, All-append, All-map, Lacks, str_eq}
use redis_in_go.Text.Scan.{
  lacks, lacks-Lacks, has_substring, has_substring-append, has_prefix, Spaceless, is_space, fields,
  fields-word,
}
use redis_in_go.Aof.{
  manifest_line, extract_file_name, second_field, name_on, target_line, named_file,
}

target_line-Lacks :
    (text line : Bytes)
    → Lacks 10 text
    → has_substring (line ++ text) (codes "type i") ≡ true
    → target_line text line ≡ line ++ text
unfolding target_line
target_line-Lacks [] line h c = ground (arith, append-nil line)
target_line-Lacks (b ∷ text) line h c =
    ground (arith, target_line-Lacks text (line ++ b ∷ []) h.1, append_assoc line (b ∷ []) text)

is_word : Bytes → Bool
is_word [] = true
is_word (c ∷ s) = not (is_space c) && is_word s

is_word-Spaceless : (s : Bytes) → is_word s ≡ true → Spaceless s
unfolding is_word
is_word-Spaceless [] h = tt
is_word-Spaceless (c ∷ s) h = (ground arith, is_word-Spaceless s (ground arith))

Spaceless-Lacks : (s : Bytes) → Spaceless s → Lacks 10 s
unfolding is_space
Spaceless-Lacks s h = All-map (λ c. is_space c ≡ false) (λ c. c ≢ 10) s (λ c e. ground arith) h

log_name-Spaceless : (name : Bytes) → Spaceless name → Spaceless (name ++ codes ".1.incr.aof")
unfolding is_space is_word
log_name-Spaceless name h =
    All-append (λ c. is_space c ≡ false) name (codes ".1.incr.aof") h
      (is_word-Spaceless (codes ".1.incr.aof") refl)

manifest_line-Lacks : (name : Bytes) → Spaceless name → Lacks 10 (manifest_line name)
unfolding manifest_line lacks
manifest_line-Lacks name h =
    All-append (λ c. c ≢ 10) (codes "file ") _ (lacks-Lacks 10 (codes "file ") refl)
      (All-append (λ c. c ≢ 10) (name ++ codes ".1.incr.aof") _
        (Spaceless-Lacks _ (log_name-Spaceless name h))
        (lacks-Lacks 10 (codes " seq 1 type i") refl))

manifest_line-has_type : (name : Bytes) → has_substring (manifest_line name) (codes "type i") ≡ true
unfolding manifest_line has_substring has_prefix
manifest_line-has_type name =
    has_substring-append (codes "file ") ((name ++ codes ".1.incr.aof") ++ codes " seq 1 type i")
      (codes "type i")
      (has_substring-append (name ++ codes ".1.incr.aof") (codes " seq 1 type i") (codes "type i")
        refl)

target_line-manifest_line :
    (name : Bytes) → Spaceless name → target_line (manifest_line name) [] ≡ manifest_line name
target_line-manifest_line name h =
    target_line-Lacks _ [] (manifest_line-Lacks name h) (manifest_line-has_type name)

fields-manifest_line :
    (name : Bytes)
    → Spaceless name
    → (rest : List Bytes) × (fields (manifest_line name)
        ≡ codes "file" ∷ (name ++ codes ".1.incr.aof") ∷ rest)
unfolding manifest_line is_space is_word
fields-manifest_line name h = (
  _,
  fields-word [] (codes "ile") ((name ++ codes ".1.incr.aof") ++ codes " seq 1 type i") 102
        (is_word-Spaceless (codes "file") refl)
      ∙ ap (λ fs. codes "file" ∷ fs)
          (fields-word name (codes "1.incr.aof") (codes "seq 1 type i") 46
            (log_name-Spaceless name h)),
)

extract_file_name-manifest_line :
    (name : Bytes)
    → Spaceless name
    → extract_file_name (manifest_line name) ≡ some (name ++ codes ".1.incr.aof")
unfolding extract_file_name second_field str_eq
extract_file_name-manifest_line name h = ap second_field (fields-manifest_line name h).1

pub named_file-manifest_line :
    (name : Bytes) → Spaceless name → named_file (manifest_line name) ≡ name ++ codes ".1.incr.aof"
unfolding named_file name_on manifest_line
named_file-manifest_line name h =
    ap name_on (target_line-manifest_line name h)
    ∙ ap (λ o. elim o [ none ↦ [] | some n ↦ n ]) (extract_file_name-manifest_line name h)
