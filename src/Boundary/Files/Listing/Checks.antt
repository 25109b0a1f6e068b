-- ===== src/Boundary/Files/Listing/Checks.antt =====
-- What a caller may rely on behind `directory_read`, whatever the provider lists.
use dotnet_pal_rs.Common.{
  ℕ, zero, suc, ◌≤◌, ◌<◌, ◌≡◌, ◌≢◌, ◌⊎◌, ◌∙◌, refl, sym, leb, ltb, ◌==◌, false, not, ◌&&◌, ◌||◌,
  Option, none, some, arith, Bool-cases, inl, inr,
}
use dotnet_pal_rs.Port.{Result, ok, err, ok_status, error_status}
use dotnet_pal_rs.Port.Laws.{from_status-status}
use dotnet_pal_rs.Boundary.Geometry.{aligned_output}
use dotnet_pal_rs.Boundary.Memory.{os_error_status, pointer_size}
use dotnet_pal_rs.Boundary.Text.{Surroundings, bytes_at, contains}
use dotnet_pal_rs.Boundary.Files.{
  Front, Files, recorded, refuse, put, shared, node_file, node_other, valid_buffer,
}
use dotnet_pal_rs.Boundary.Files.Listing.{
  Entry, skipped, handed_out, refused, entry, is_self, max_entry_name, clear_name, read_loop,
  directory_read,
}

-- A name that stands for an entry of a directory, and a kind of node.
pub record IsEntry (memory : ℕ → ℕ) (name done kind : ℕ) : Type 0 where
  pub some_bytes : 0 < done
  pub short : done ≤ max_entry_name
  pub other : is_self (bytes_at memory name done) ≡ false
  pub no_nul : contains 0 (bytes_at memory name done) ≡ false
  pub no_slash : contains b'/' (bytes_at memory name done) ≡ false
  pub kind_known : (node_file ≤ kind) × (kind ≤ node_other)

entry_lem :
    (memory : ℕ → ℕ) (name done kind : ℕ)
    → entry memory name done kind ≡ handed_out
    → IsEntry memory name done kind
unfolding entry
entry_lem memory name done kind e = elim (Bool-cases (done == 0 || ltb max_entry_name done)) [
  | inl bad ↦ let now : refused ≡ handed_out = sym (rw (bad, entry)) ∙ e in cc
  | inr good ↦ elim (Bool-cases (is_self (bytes_at memory name done))) [
    | inl self ↦ let now : skipped ≡ handed_out = sym (rw (good, self, entry)) ∙ e in cc
    | inr other ↦
        elim (Bool-cases (
          (leb node_file kind && leb kind node_other)
          && (not (contains 0 (bytes_at memory name done))
              && not (contains b'/' (bytes_at memory name done))))) [
                | inr bad ↦
                    let now : refused ≡ handed_out = sym (rw (good, other, bad, entry)) ∙ e in cc
                | inl fine ↦ record {
                  some_bytes = ground (arith, good);
                  short = ground (arith, good);
                  other = other;
                  no_nul = ground (arith, fine);
                  no_slash = ground (arith, fine);
                  kind_known = (ground (arith, fine), ground (arith, fine));
                }
              ]
  ]
]

Entry-cases : (e : Entry) → (e ≡ skipped) ⊎ (e ≡ handed_out) ⊎ (e ≡ refused)
Entry-cases skipped = inl refl
Entry-cases handed_out = inr (inl refl)
Entry-cases refused = inr (inr refl)

-- What a call leaves that is told as success: an entry, with its name in the buffer.
abbrev pub IsListed : {W : Type 0} → ℕ → ℕ → ℕ → Option (ℕ × Front W) → Type 0
IsListed name length kind none = ⊥
IsListed name length kind (some (status, f)) =
    status ≡ ok_status → IsEntry f.provided.memory name (f.outputs length) (f.outputs kind)

shared_positive : (status : ℕ) → 0 < status → 0 < shared status
unfolding shared
shared_positive status h = ground (arith, h)

module _ {W : Type 0} (p : Files W) (directory name capacity length kind : ℕ)
    (apart : length ≢ kind) (left : W → ℕ)
    (shorter : (s : Surroundings W) (listed : ℕ × ℕ)
      → (p.read_directory directory name capacity s).0 ≡ ok listed
      → left (p.read_directory directory name capacity s).1.world < left s.world) where
  -- One round, on what the provider answered; `later` is what the next rounds come to.
  round_lem :
      (r : Result (ℕ × ℕ)) (f : Front W) (later : Option (ℕ × Front W))
      → ((listed : ℕ × ℕ) → r ≡ ok listed → IsListed name length kind later)
      → IsListed name length kind (elim r [
        | err e ↦ some (recorded (error_status e) 9 (clear_name name capacity f))
        | ok (done, node) ↦ elim (entry f.provided.memory name done node) [
          | skipped ↦ later
          | handed_out ↦ some (recorded ok_status 9 (put kind node (put length done f)))
          | refused ↦ some (recorded os_error_status 9 (clear_name name capacity f))
        ]
      ])
  unfolding recorded shared put
  round_lem (err cause) f later h = λ e.
      let (_, positive, _) = from_status-status cause in
      absurd (omega (arith, e, shared_positive (error_status cause) positive))
  round_lem (ok (done, node)) f later h =
      elim (Entry-cases (entry f.provided.memory name done node)) [
        | inl e ↦ rw e (h (done, node) refl)
        | inr (inl e) ↦
            let told_length : (put kind node (put length done f)).outputs length ≡ done =
              ground (arith, apart) in
            let told_kind : (put kind node (put length done f)).outputs kind ≡ node =
              ground arith in
            rw e (λ _. rw (told_length, told_kind) (entry_lem f.provided.memory name done node e))
        | inr (inr e) ↦ rw e (λ now. absurd (omega (arith, now)))
      ]

  read_loop_lem :
      (rounds : ℕ) (f : Front W)
      → left f.provided.world < rounds
      → IsListed name length kind (read_loop p rounds directory name capacity length kind f)
  unfolding read_loop
  read_loop_lem zero f h = absurd (omega (arith, h))
  read_loop_lem (suc rounds) f h =
      let s = (clear_name name capacity f).provided in
      let f' = record f { provided = (p.read_directory directory name capacity s).1 } in
      round_lem (p.read_directory directory name capacity s).0 f'
        (read_loop p rounds directory name capacity length kind f')
        (λ listed e. read_loop_lem rounds f' (omega (arith, shorter s listed e, h)))

  -- A provider whose listing gets shorter with every entry that it lists, and which has fewer entries left
  -- than there are rounds, is read to an answer. If that is success, the name in the buffer has 1 to 255
  -- bytes, none of them 0 or a slash, is no self reference, and stands with a kind of node.
  pub directory_read_lem :
      (rounds : ℕ) (f : Front W)
      → left f.provided.world < rounds
      → IsListed name length kind (directory_read p rounds directory name capacity length kind f)
  unfolding directory_read refuse recorded shared put
  directory_read_lem rounds f h =
      elim (Bool-cases (not (aligned_output pointer_size length) || not (aligned_output 4 kind))) [
        | inl bad ↦ rw (bad, directory_read) (λ now. absurd (omega (arith, now)))
        | inr aligned ↦
            elim (Bool-cases (
              directory == 0
              || (name == 0
                  || (ltb capacity max_entry_name || not (valid_buffer name capacity))))) [
                    | inl bad ↦
                        rw (aligned, bad, directory_read) (λ now. absurd (omega (arith, now)))
                    | inr good ↦
                        rw (aligned, good, directory_read)
                          (read_loop_lem rounds (put kind 0 (put length 0 f)) h)
                  ]
      ]
