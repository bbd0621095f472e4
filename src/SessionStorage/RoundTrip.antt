-- ===== src/SessionStorage/RoundTrip.antt =====
-- What `loadSession` reads from a file that `saveSession` wrote.
use networkprogramming_battl.Base.{
  ℕ, ◌^◌, ◌<◌, ltb, if◌then◌else◌, ℤ, pos, negsuc, true, ◌≡◌, refl, Option, List, [], arith,
}
use networkprogramming_battl.SessionStorage.{
  Session, print_number, write_line, save_session, in_int, throws, loaded, load_rest, load_session,
}
use networkprogramming_battl.SessionStorage.Lines.{
  OneLine, get_line-append, print_number-OneLine, magnitude, stoi_line-print_number,
}

in_int_small : (z : ℤ) → in_int z ≡ true → magnitude z < 2 ^ 33
in_int_small (pos n) h = ground arith
in_int_small (negsuc n) h = ground arith

-- The lines behind the number of the user.
rest_read :
    (s : Session)
    → in_int s.elo_rating ≡ true
    → OneLine s.session_token
    → OneLine s.username
    → OneLine s.display_name
    → load_rest s.user_id (
        write_line s.session_token (
          write_line s.username
            (write_line s.display_name (write_line (print_number s.elo_rating) []))))
      ≡ loaded s
rest_read s e t u d =
    rw
      (
        load_rest,
        get_line-append s.session_token
            (write_line s.username
              (write_line s.display_name (write_line (print_number s.elo_rating) [])))
            t,
        get_line-append s.username
            (write_line s.display_name (write_line (print_number s.elo_rating) [])) u,
        get_line-append s.display_name (write_line (print_number s.elo_rating) []) d,
        get_line-append (print_number s.elo_rating) [] (print_number-OneLine s.elo_rating),
        stoi_line-print_number s.elo_rating (in_int_small s.elo_rating e),
        e,
      )
      refl

-- A session whose texts hold no line break, with an elo rating that an int holds, is read back as it was
-- saved, where the number of the user, a uint32_t, is below 2^31; above that the load throws.
pub load-save :
    (file : Option (List ℕ)) (s : Session)
    → s.user_id < 2 ^ 32
    → in_int s.elo_rating ≡ true
    → OneLine s.session_token
    → OneLine s.username
    → OneLine s.display_name
    → load_session (save_session file s true).0
      ≡ (if ltb s.user_id (2 ^ 31) then loaded s else throws)
unfolding load_session save_session
load-save file s h e t u d =
    let later = write_line s.session_token (
      write_line s.username
        (write_line s.display_name (write_line (print_number s.elo_rating) []))) in
    let first =
      get_line-append (print_number (pos s.user_id)) later (print_number-OneLine (pos s.user_id)) in
    let number = stoi_line-print_number (pos s.user_id) (omega (arith, h)) in
    rw (load_session, first, number) (ground (arith, rest_read s e t u d))
