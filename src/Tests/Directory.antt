-- ===== src/Tests/Directory.antt =====
-- A directory with one file.
use rmtdos_utils.Prelude.{ℕ, refl, arith, List, [], ◌∷◌, ◌++◌, true, replicate}
use rmtdos_utils.FileTransfer.State.{FileTransferState, file_transfer_init}
use rmtdos_utils.FileTransfer.Dos.{Int21, DosReply, find_first, find_next, dos_set_dta, dos_get_dta}
use rmtdos_utils.FileTransfer.Dir.Listing.{Listed, collect_dir_entries_page}
use rmtdos_utils.FileTransfer.Invariant.{IsValid, file_transfer_init-IsValid}
use rmtdos_utils.Tests.{accepts}

abbrev no_more : DosReply
no_more = record { carry = true; ax = 18; bx = 0; dx = 0; es = 0; stored = [] }

-- The entries that the search has not reported yet.
abbrev searches : List (List ℕ) → List (List ℕ) × DosReply
searches [] = ([], no_more)
searches (d ∷ ds) = (ds, accepts 0 d)

abbrev disk : Int21 (List (List ℕ))
disk w (find_first attributes pattern) = searches w
disk w find_next = searches w
disk w _ = (w, accepts 0 [])

-- README, 5 bytes.
abbrev readme : List ℕ
readme =
    replicate 21 0
    ++ 32 ∷ 0 ∷ 0 ∷ 0 ∷ 0 ∷ 5 ∷ 0 ∷ 0 ∷ 0 ∷ 82 ∷ 69 ∷ 65 ∷ 68 ∷ 77 ∷ 69 ∷ replicate 7 0

abbrev listing : List (List ℕ)
listing = readme ∷ readme ∷ []

-- The client asks for the page that begins with the second entry.
abbrev asked : FileTransferState
asked = record file_transfer_init { dir_start_index = 1; dir_max_entries = 9 }

asked-IsValid : IsValid asked
unfolding file_transfer_init
asked-IsValid = ground (arith, file_transfer_init-IsValid)

collect_dir_entries_page_example : Listed disk 2 asked listing listing
unfolding dos_set_dta dos_get_dta
collect_dir_entries_page_example =
    collect_dir_entries_page disk asked-IsValid listing 2 listing
      (refl, refl, refl, (refl, refl, refl, refl)) (omega arith) (omega arith)
