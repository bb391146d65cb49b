-- ===== src/Tests/Events.antt =====
-- The bytes of inotify events: fseventProducerLoop_linux.go.
use go_libtail.Prelude.{ℕ, zero, suc, ◌≡◌, ◌↔◌, refl, List, [], ◌∷◌, map, replicate, arith}
use go_libtail.Errors.{text}
use go_libtail.FileTailer.Linux.{has_flag}
use go_libtail.FileTailer.Linux.Events.{events_from, reads_again, panics}
use go_libtail.FileTailer.Linux.Events.Decode.{
  Written, HasNoNul, encode_all, size_all, events_from-encode_all,
}
use go_libtail.FileTailer.Linux.Events.Padded.{HasLongName, events_from_panics_iff}

-- "x" is modified, and then "new" is created, in the directory 1.
abbrev two_events : List Written
two_events =
    (record { event = record { wd = 1; mask = 2; name = text "x" }; cookie = 0; padding = 15 })
    ∷ (record {
      event = record { wd = 1; mask = 256; name = text "new" };
      cookie = 0;
      padding = 13;
    })
    ∷ []

events_from-encode_all_example :
    events_from 3 (size_all two_events) (encode_all two_events (1 ∷ 2 ∷ [])) 0
    ≡ (map (λ e. e.event) two_events, reads_again)
unfolding has_flag
events_from-encode_all_example =
    events_from-encode_all two_events 3 (1 ∷ 2 ∷ [])
      (
        record {
          wd_fits = omega arith;
          mask_fits = omega arith;
          name_fits = omega arith;
          no_nul = (omega arith, tt);
          not_ignored = refl;
        },
        (
          record {
            wd_fits = omega arith;
            mask_fits = omega arith;
            name_fits = omega arith;
            no_nul = (omega arith, (omega arith, (omega arith, tt)));
            not_ignored = refl;
          },
          tt,
        ),
      )
      (omega arith)

-- "x" is modified, and then a file with a name of 240 bytes is created; 16 zeros are behind it.
abbrev long_event : Written
long_event = record {
  event = record { wd = 1; mask = 256; name = replicate 240 97 };
  cookie = 0;
  padding = 16;
}

abbrev short_event : Written
short_event = record {
  event = record { wd = 1; mask = 2; name = text "x" };
  cookie = 0;
  padding = 15;
}

long_name : HasNoNul (replicate 240 97)
long_name = no_nul 240
  where
    no_nul : (n : ℕ) → HasNoNul (replicate n 97)
    no_nul zero = tt
    no_nul (suc n) = (omega arith, no_nul n)

events_from_panics_iff_example :
    ((events_from 3
        (size_all (short_event ∷ long_event ∷ []))
        (encode_all (short_event ∷ long_event ∷ []) [])
        0).1
      ≡ panics)
    ↔ HasLongName (short_event ∷ long_event ∷ [])
unfolding has_flag
events_from_panics_iff_example =
    events_from_panics_iff (short_event ∷ long_event ∷ []) 3 []
      (
        record {
          wd_fits = omega arith;
          mask_fits = omega arith;
          is_name = omega arith;
          no_nul = (omega arith, tt);
          padded = refl;
          not_ignored = refl;
        },
        (
          record {
            wd_fits = omega arith;
            mask_fits = omega arith;
            is_name = omega arith;
            no_nul = long_name;
            padded = refl;
            not_ignored = refl;
          },
          tt,
        ),
      )
      (omega arith)
