-- ===== src/FileCommander/RemoteDir/Listing.antt =====
-- A fetched directory is the directory.
use rmtdos_utils.Prelude.{
  ℕ, zero, suc, ◌-◌, ◌^◌, ◌<◌, ◌≤◌, ◌≡◌, ◌∙◌, refl, sym, ap, ap₂, true, false, Option, none, some,
  List, [], ◌∷◌, ◌++◌, arith, Bool-cases, Option-cases, inl, inr, length, take, drop, ltb, u16,
  be16, be32, get_be16, length-append, length-take, length-drop, take-add, replicate,
}
use rmtdos_utils.Wire.{Mac}
use rmtdos_utils.Wire.PktType
use rmtdos_utils.Client.{RawSocket, Link, packet_buffer}
use rmtdos_utils.Client.Get.Sound.{Post, Given, prepend-Post}
use rmtdos_utils.FileCommander.RemoteDir.{
  RemoteDirEntry, read_entries, is_dir_page, is_bad_page, page_of, recv_dir_page, request_page,
  fetch_loop, fetch_end, remote_dir_fetch,
}

module _ {ℓ} {A : Type ℓ} where
  take-length-take : (n : ℕ) (xs : List A) → take (length (take n xs)) xs ≡ take n xs
  take-length-take zero xs = refl
  take-length-take (suc n) [] = refl
  take-length-take (suc n) (x ∷ xs) = ap (λ r. x ∷ r) (take-length-take n xs)

  pub take-of_le : (n : ℕ) (xs : List A) → length xs ≤ n → take n xs ≡ xs
  take-of_le zero [] h = refl
  take-of_le zero (x ∷ xs) h = absurd (omega arith)
  take-of_le (suc n) [] h = refl
  take-of_le (suc n) (x ∷ xs) h = ap (λ r. x ∷ r) (take-of_le n xs (omega arith))

-- A listing up to the limit.
abbrev pub Lists : List RemoteDirEntry → ℕ → List RemoteDirEntry → Type 0
Lists listing max_entries entries = entries ≡ take max_entries listing

-- What the file manager relies on: an accepted frame shows the page of the directory that begins at
-- the index that was asked for.
pub record Shows {W : Type 0} (net : Link W) (sock : RawSocket) (dest : Mac) (request_id : ℕ)
    (stale : List ℕ) (listing : List RemoteDirEntry) : Type 0 where
  pub pages :
      (w : W) (f : List ℕ) (start_index max_entries : ℕ)
      → (net.recv w).0 ≡ some f
      → is_dir_page sock dest request_id start_index f ≡ true
      → is_bad_page max_entries f ≡ false
      → page_of stale f ≡ take 16 (drop start_index listing)

length-read_entries : (n : ℕ) (xs : List ℕ) → length (read_entries n xs) ≡ n
unfolding read_entries
length-read_entries zero xs = refl
length-read_entries (suc n) xs = ap suc (length-read_entries n (drop 74 xs))

length-page_of :
    (stale f : List ℕ) (max_entries : ℕ)
    → is_bad_page max_entries f ≡ false
    → length (page_of stale f) ≤ max_entries
unfolding is_bad_page
length-page_of stale f max_entries good =
    let count : get_be16 f 32 ≤ max_entries = ground arith in
    omega (arith, count, length-read_entries (get_be16 f 32))

module _ {W : Type 0} (net : Link W) (sock : RawSocket) (dest : Mac) (request_id : ℕ)
    (stale : List ℕ) (listing : List RemoteDirEntry)
    (shows : Shows net sock dest request_id stale listing) where
  -- A page at `start_index` that has room.
  record IsPage (start_index room : ℕ) (page : List RemoteDirEntry) : Type 0 where
    same : page ≡ take 16 (drop start_index listing)
    fits : length page ≤ room

  recv_dir_page-IsPage :
      (fuel start_index room : ℕ) (w : W) {page : List RemoteDirEntry} {w' : W}
      → recv_dir_page net sock dest request_id stale fuel start_index room w ≡ some (some page, w')
      → IsPage start_index room page
  unfolding recv_dir_page
  recv_dir_page-IsPage zero start_index room w e = absurd (cc)
  recv_dir_page-IsPage (suc fuel) start_index room w {page} {w'} e =
      elim (Option-cases (net.recv w).0) [
        | inl silent ↦ absurd (ground arith)
        | inr (f, got) ↦ elim (Bool-cases (is_dir_page sock dest request_id start_index f)) [
          | inr stray ↦
              recv_dir_page-IsPage fuel start_index room (net.recv w).1 {page = page} {w' = w'}
                (ground arith)
          | inl ours ↦ elim (Bool-cases (is_bad_page room f)) [
            | inl bad ↦ absurd (ground arith)
            | inr good ↦
                let e' : page_of stale f ≡ page = ground arith in
                record {
                  same = sym e' ∙ shows.pages w f start_index room got ours good;
                  fits = rw (← e') (length-page_of stale f room good);
                }
          ]
        ]
      ]

  request_page-IsPage :
      (attempts fuel total room : ℕ) (w : W)
      → total < 2 ^ 16
      → Post
          (Given (IsPage total room))
          (request_page net sock dest request_id stale attempts fuel total room w)
  unfolding request_page
  request_page-IsPage zero fuel total room w small = tt
  request_page-IsPage (suc attempts) fuel total room w small =
      let packet =
        packet_buffer sock (some dest) PktType.dir_list_data_req
          (be32 request_id ++ (be16 (u16 total) ++ be16 16)) in
      let w1 = (net.sendto packet w).1 in
      let index : u16 total ≡ total = omega arith in
      elim (Bool-cases (net.sendto packet w).0) [
        | inr down ↦ rw (request_page, down) tt
        | inl sent ↦
            elim (Option-cases
              (recv_dir_page net sock dest request_id stale fuel (u16 total) room w1)) [
                | inl out ↦ rw (request_page, sent, out) tt
                | inr ((some page, w2), e) ↦
                    rw (request_page, sent, e)
                      (rw index at (recv_dir_page-IsPage fuel (u16 total) room w1 e))
                | inr ((none, w2), e) ↦
                    rw (request_page, sent, e)
                      (prepend-Post (Given (IsPage total room)) (packet ∷ []) _
                        (request_page-IsPage attempts fuel total room w2 small))
              ]
      ]

  -- A page after what is known of the directory.
  extends :
      (max_entries : ℕ) (entries page : List RemoteDirEntry)
      → entries ≡ take (length entries) listing
      → IsPage (length entries) (max_entries - length entries) page
      → entries ++ page ≡ take (length (entries ++ page)) listing
  extends max_entries entries page e p =
      let total = length entries in
      let left = drop total listing in
      let cut : page ≡ take (length page) left =
        p.same
        ∙ (sym (take-length-take 16 left)
            ∙ ap (λ (q : List RemoteDirEntry). take (length q) left) (sym p.same)) in
      ap₂ (λ a b. a ++ b) e cut
      ∙ (sym (take-add total (length page) listing)
          ∙ ap (λ k. take k listing) (sym (length-append entries page)))

  -- A page that is not full is the last one.
  ends :
      (max_entries : ℕ) (entries page : List RemoteDirEntry)
      → entries ++ page ≡ take (length (entries ++ page)) listing
      → length entries ≤ max_entries
      → IsPage (length entries) (max_entries - length entries) page
      → length page < 16
      → Lists listing max_entries (entries ++ page)
  ends max_entries entries page longer within p short =
      let total = length entries in
      let sum = length-append entries page in
      let size = ap (λ (q : List RemoteDirEntry). length q) p.same in
      let rest = length-take 16 (drop total listing) in
      let left = length-drop total listing in
      let all : length listing ≤ length (entries ++ page) = omega (arith, sum, size, rest, left) in
      longer
      ∙ (take-of_le (length (entries ++ page)) listing all
          ∙ sym (take-of_le max_entries listing (omega (arith, all, sum, p.fits))))

  fetch_loop-Lists :
      (rounds fuel max_entries : ℕ) (entries : List RemoteDirEntry) (w : W)
      → max_entries < 2 ^ 16
      → length entries ≤ max_entries
      → entries ≡ take (length entries) listing
      → Post
          (Given (Lists listing max_entries))
          (fetch_loop net sock dest request_id stale rounds fuel max_entries entries w)
  unfolding fetch_loop
  fetch_loop-Lists zero fuel max_entries entries w small within e = tt
  fetch_loop-Lists (suc rounds) fuel max_entries entries w small within e =
      let total = length entries in
      let room = max_entries - total in
      let answer = request_page-IsPage 5 fuel total room w (omega arith) in
      elim (Bool-cases (ltb total max_entries)) [
        | inr full ↦
            let all : total ≡ max_entries = ground arith in
            rw (fetch_loop, full) (e ∙ ap (λ k. take k listing) all)
        | inl more ↦
            elim (Option-cases (request_page net sock dest request_id stale 5 fuel total room w)) [
              | inl out ↦ rw (fetch_loop, more, out) tt
              | inr ((none, w1, fs), run) ↦ rw (fetch_loop, more, run) tt
              | inr ((some page, w1, fs), run) ↦
                  let p : IsPage total room page = rw run at answer in
                  let longer = extends max_entries entries page e p in
                  let sum = length-append entries page in
                  rw (fetch_loop, more, run)
                    (elim (Bool-cases (ltb (length page) 16)) [
                      | inr whole ↦ rw whole (
                          prepend-Post (Given (Lists listing max_entries)) fs _ (
                            fetch_loop-Lists rounds fuel max_entries (entries ++ page) w1 small
                              (omega (arith, sum, p.fits)) longer))
                      | inl last ↦
                          rw last (ends max_entries entries page longer within p (ground arith))
                    ])
            ]
      ]

  fetch_end-Lists :
      (max_entries : ℕ) (got : Option (List RemoteDirEntry)) (w : W)
      → Given (Lists listing max_entries) got
      → Post (Given (Lists listing max_entries)) (fetch_end net sock dest request_id stale got w)
  unfolding fetch_end
  fetch_end-Lists max_entries none w h = tt
  fetch_end-Lists max_entries (some entries) w h = h

  -- If the file manager's fetch of a remote directory comes to its end and succeeds, then the
  -- entries that it gives are those of the directory in their order, up to the limit: no entry of
  -- a page is lost or doubled, whatever frames are lost or repeated meanwhile. The frames that it
  -- takes for pages of this directory show the page that begins at the index that was asked for,
  -- and the limit is below 65536.
  pub remote_dir_fetch-Lists :
      (fuel max_entries : ℕ) (path : List ℕ) (w : W)
      → max_entries < 2 ^ 16
      → Post
          (Given (Lists listing max_entries))
          (remote_dir_fetch net sock dest request_id stale fuel path max_entries w)
  unfolding remote_dir_fetch
  remote_dir_fetch-Lists fuel max_entries path w small =
      let name = take 127 path in
      let packet =
        packet_buffer sock (some dest) PktType.dir_list_begin
          (be32 request_id ++ (name ++ replicate (128 - length name) 0)) in
      let w1 = (net.sendto packet w).1 in
      let all =
        fetch_loop-Lists (suc max_entries) fuel max_entries [] w1 small (omega arith) refl in
      elim (Bool-cases (net.sendto packet w).0) [
        | inr down ↦ rw (remote_dir_fetch, down) tt
        | inl sent ↦
            elim (Option-cases (
              fetch_loop net sock dest request_id stale (suc max_entries) fuel max_entries [] w1)) [
                | inl out ↦ rw (remote_dir_fetch, sent, out) tt
                | inr ((got, w2, fs), run) ↦
                    rw (remote_dir_fetch, sent, run)
                      (prepend-Post (Given (Lists listing max_entries)) (packet ∷ fs) _
                        (fetch_end-Lists max_entries got w2 (rw run at all)))
              ]
      ]
