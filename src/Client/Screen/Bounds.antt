-- ===== src/Client/Screen/Bounds.antt =====
-- Whatever frames come in, the list of hosts stays well formed.
use rmtdos_utils.Prelude.{
  ℕ, zero, suc, ◌+◌, ◌<◌, ◌≤◌, ◌≡◌, inl, inr, refl, ap, ◌∙◌, false, Bool, none, some, List, ◌++◌,
  arith, length, get_or, set, take, drop, get_be16, length-append, length-take, length-drop,
  length-replicate, Bool-cases, Option-cases, ltb, ◌==◌, if◌then◌else◌, if_intro,
}
use rmtdos_utils.Wire.{Mac, get_mac}
use rmtdos_utils.Wire.PktType
use rmtdos_utils.Client.Hosts.{
  RemoteHost, HostList, host_at, no_hosts, cleared, is_empty, first_slot, hostlist_find_by_mac,
  hostlist_register, record_response, video_text_bytes, cga_graphics_bytes,
}
use rmtdos_utils.Client.Hosts.Slots.{
  IsHostList, no_hosts-IsHostList, no_hosts_nowhere, Everywhere, update-IsHostList, set-Everywhere,
  find_by_mac-some, first_slot-some, has_addr-host_of,
}
use rmtdos_utils.Client.Hosts.Register.{
  hostlist_register-Registered, newcomer, register-full, register-new,
}
use rmtdos_utils.Client.Screen.{
  bytes_read, copy_to, heard, show_text, show_graphics, process_incoming_video_text,
  process_incoming_cga_graphics,
}

length-bytes_read : (n : ℕ) (xs : List ℕ) → length (bytes_read n xs) ≡ n
unfolding bytes_read
length-bytes_read zero xs = refl
length-bytes_read (suc n) xs = ap suc (length-bytes_read n (drop 1 xs))

-- A copy inside an array leaves its length.
pub length-copy_to :
    (array source : List ℕ) (offset count : ℕ)
    → count + offset ≤ length array
    → length (copy_to array offset source count) ≡ length array
unfolding copy_to
length-copy_to array source offset count h =
    let pre = take offset array in
    let read = bytes_read count source in
    let post = drop (offset + count) array in
    omega (
      arith,
      h,
      length-append pre (read ++ post),
      length-append read post,
      length-bytes_read count source,
      length-take offset array,
      length-drop (offset + count) array,
    )

-- The arrays of a host have their sizes.
pub record IsFramed (rh : RemoteHost) : Type 0 where
  pub text : length rh.video_text_buffer ≡ video_text_bytes
  pub graphics : length rh.cga_graphics_buffer ≡ cga_graphics_bytes

pub record IsSound (hosts : HostList) : Type 0 where
  pub listed : IsHostList hosts
  pub framed : Everywhere IsFramed hosts

pub no_hosts-IsSound : IsSound no_hosts
no_hosts-IsSound = record {
  listed = no_hosts-IsHostList;
  framed = λ i rh at. absurd (no_hosts_nowhere i rh at);
}

-- The host that a frame comes from, if it is known, and what putting it back needs.
pub sender-known :
    (mac : Mac) (i : ℕ) (hosts : HostList)
    → IsSound hosts
    → hostlist_find_by_mac mac hosts ≡ some i
    → (i < length hosts)
      × (get_or hosts i none ≡ some (host_at hosts i))
      × IsFramed (host_at hosts i)
sender-known mac i hosts ok found =
    let (inside, hit) = find_by_mac-some mac i hosts found in
    let (there, _) = has_addr-host_of mac (get_or hosts i none) hit in
    (inside, there, ok.framed i (host_at hosts i) there)

-- A host that keeps its identity and the sizes of its arrays can be put back.
pub put_back-IsSound :
    (hosts : HostList) (i : ℕ) (old rh : RemoteHost)
    → IsSound hosts
    → i < length hosts
    → get_or hosts i none ≡ some old
    → rh.index ≡ old.index
    → rh.if_addr ≡ old.if_addr
    → IsFramed rh
    → IsSound (set hosts i (some rh))
put_back-IsSound hosts i old rh ok inside there idx addr framed = record {
  listed = update-IsHostList hosts i old rh ok.listed inside there idx addr;
  framed = set-Everywhere IsFramed hosts i rh inside ok.framed framed;
}

show_text-IsFramed :
    (buf : List ℕ) (rh : RemoteHost)
    → IsFramed rh
    → get_be16 buf 32 + get_be16 buf 30 ≤ video_text_bytes
    → IsFramed (show_text buf rh)
unfolding show_text
show_text-IsFramed buf rh ok h = record {
  text =
      length-copy_to rh.video_text_buffer (drop 34 buf) (get_be16 buf 30) (get_be16 buf 32)
        (omega (arith, h, ok.text))
      ∙ ok.text;
  graphics = ok.graphics;
}

show_graphics-IsFramed :
    (buf : List ℕ) (rh : RemoteHost)
    → IsFramed rh
    → get_be16 buf 34 + get_be16 buf 32 ≤ cga_graphics_bytes
    → IsFramed (show_graphics buf rh)
unfolding show_graphics
show_graphics-IsFramed buf rh ok h = record {
  text = ok.text;
  graphics =
      length-copy_to rh.cga_graphics_buffer (drop 36 buf) (get_be16 buf 32) (get_be16 buf 34)
        (omega (arith, h, ok.graphics))
      ∙ ok.graphics;
}

ltb-false : (a b : ℕ) → ltb a b ≡ false → b ≤ a
ltb-false a b h = ground arith

-- Both kinds of screen frames: the host is heard, and shown if the piece fits its array.
shown-IsSound :
    (now : ℕ) (mac : Mac) (i : ℕ) (hosts : HostList) (over : Bool) (show : RemoteHost → RemoteHost)
    → IsSound hosts
    → hostlist_find_by_mac mac hosts ≡ some i
    → ((rh : RemoteHost) → (show rh).index ≡ rh.index)
    → ((rh : RemoteHost) → (show rh).if_addr ≡ rh.if_addr)
    → ((rh : RemoteHost) → IsFramed rh → over ≡ false → IsFramed (show rh))
    → IsSound (
        if over
        then set hosts i (some (heard now (host_at hosts i)))
        else set hosts i (some (show (heard now (host_at hosts i)))))
shown-IsSound now mac i hosts over show ok found idx addr frames =
    let (inside, there, framed) = sender-known mac i hosts ok found in
    let rh = heard now (host_at hosts i) in
    let same : IsFramed rh = record { text = framed.text; graphics = framed.graphics } in
    elim (Bool-cases over) [
      | inl long ↦
          rw long (put_back-IsSound hosts i (host_at hosts i) rh ok inside there refl refl same)
      | inr fits ↦ rw fits (
          put_back-IsSound hosts i (host_at hosts i) (show rh) ok inside there (idx rh) (addr rh)
            (frames rh same fits))
    ]

module _ (now : ℕ) (buf : List ℕ) (hosts : HostList) (ok : IsSound hosts) where
  pub process_incoming_video_text-IsSound : IsSound (process_incoming_video_text now buf hosts)
  unfolding process_incoming_video_text show_text
  process_incoming_video_text-IsSound =
      elim (Option-cases (hostlist_find_by_mac (get_mac buf 6) hosts)) [
        | inl unknown ↦ rw (process_incoming_video_text, unknown) ok
        | inr (i, found) ↦
            rw (process_incoming_video_text, found)
              (shown-IsSound now (get_mac buf 6) i hosts
                (ltb video_text_bytes (get_be16 buf 32 + get_be16 buf 30)) (show_text buf) ok found
                (λ rh. refl) (λ rh. refl)
                (λ rh framed fits. show_text-IsFramed buf rh framed (ltb-false _ _ fits)))
      ]

  pub process_incoming_cga_graphics-IsSound : IsSound (process_incoming_cga_graphics now buf hosts)
  unfolding process_incoming_cga_graphics show_graphics
  process_incoming_cga_graphics-IsSound =
      elim (Option-cases (hostlist_find_by_mac (get_mac buf 6) hosts)) [
        | inl unknown ↦ rw (process_incoming_cga_graphics, unknown) ok
        | inr (i, found) ↦
            rw (process_incoming_cga_graphics, found)
              (shown-IsSound now (get_mac buf 6) i hosts
                (ltb cga_graphics_bytes (get_be16 buf 34 + get_be16 buf 32)) (show_graphics buf) ok
                found (λ rh. refl) (λ rh. refl)
                (λ rh framed fits. show_graphics-IsFramed buf rh framed (ltb-false _ _ fits)))
      ]

  record_response-IsFramed : (rh : RemoteHost) → IsFramed rh → IsFramed (record_response now buf rh)
  unfolding record_response
  record_response-IsFramed rh framed =
      if_intro {A = RemoteHost} IsFramed (get_be16 buf 24 == PktType.status_resp)
        (record { text = framed.text; graphics = framed.graphics })
        (record { text = framed.text; graphics = framed.graphics })

  newcomer-IsFramed : (i : ℕ) → IsFramed (newcomer i (get_mac buf 6))
  unfolding cleared
  newcomer-IsFramed i = record {
    text = length-replicate {A = ℕ} video_text_bytes 0;
    graphics = length-replicate {A = ℕ} cga_graphics_bytes 0;
  }

  registered-IsFramed : Everywhere IsFramed (hostlist_register now buf hosts)
  unfolding hostlist_register
  registered-IsFramed = elim (Option-cases (hostlist_find_by_mac (get_mac buf 6) hosts)) [
    | inr (i, found) ↦
        let (inside, there, framed) = sender-known (get_mac buf 6) i hosts ok found in
        rw (hostlist_register, found)
          (set-Everywhere IsFramed hosts i _ inside ok.framed
            (record_response-IsFramed (host_at hosts i) framed))
    | inl unknown ↦ elim (Option-cases (first_slot is_empty 0 hosts)) [
      | inl full ↦ rw (register-full now buf hosts ok.listed unknown full) ok.framed
      | inr (i, free) ↦
          let (_, below, hit) = first_slot-some is_empty 0 i hosts free in
          let inside : i < length hosts = omega arith in
          rw (register-new now buf hosts ok.listed i unknown free inside) (
            set-Everywhere IsFramed hosts i _ inside ok.framed
              (record_response-IsFramed _ (newcomer-IsFramed i)))
    ]
  ]

  pub hostlist_register-IsSound : IsSound (hostlist_register now buf hosts)
  hostlist_register-IsSound = record {
    listed = (hostlist_register-Registered now buf hosts ok.listed).0;
    framed = registered-IsFramed;
  }
