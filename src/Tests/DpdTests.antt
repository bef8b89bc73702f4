-- ===== src/Tests/DpdTests.antt =====
-- The tables of src/decDPD.h at concrete entries.
use cpp_decimal.Base.{◌*◌, ◌<◌, ◌≡◌, refl, arith, true, get_or}
use cpp_decimal.Dpd.BinToDpd.{bin2dpd}
use cpp_decimal.Dpd.DpdToBcd.{dpd2bcd}
use cpp_decimal.Dpd.DpdToBin.{dpd2bin}
use cpp_decimal.Dpd.DpdToBinK.{dpd2bink}
use cpp_decimal.Dpd.DpdToBinM.{dpd2binm}
use cpp_decimal.Dpd.Laws.{decoding_lem, dpd2bin-bin2dpd, bin2dpd-dpd2bin}
use cpp_decimal.Dpd.Spec.{declet, number_of, packed_of, is_canonical}

decoding_lem_example :
    (get_or dpd2bin 0x3ff 0 ≡ number_of (declet 0x3ff))
    × (get_or dpd2bink 0x3ff 0 ≡ number_of (declet 0x3ff) * 1000)
    × (get_or dpd2binm 0x3ff 0 ≡ number_of (declet 0x3ff) * 1000000)
    × (get_or dpd2bcd 0x3ff 0 ≡ packed_of (declet 0x3ff))
decoding_lem_example = decoding_lem 0x3ff (omega arith)

-- That declet is 999, and so is the canonical 0x0ff.
three_nines : get_or dpd2bin 0x3ff 0 ≡ 999
three_nines = refl

dpd2bin-bin2dpd_example :
    let d = get_or bin2dpd 999 0 in
    (d < 1024) × (is_canonical d ≡ true) × (get_or dpd2bin d 0 ≡ 999)
dpd2bin-bin2dpd_example = dpd2bin-bin2dpd 999 (omega arith)

last_canonical : is_canonical 0x0ff ≡ true
unfolding is_canonical
last_canonical = refl

bin2dpd-dpd2bin_example : get_or bin2dpd (get_or dpd2bin 0x0ff 0) 0 ≡ 0x0ff
bin2dpd-dpd2bin_example = bin2dpd-dpd2bin 0x0ff (omega arith) last_canonical
