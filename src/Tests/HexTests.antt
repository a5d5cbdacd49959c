-- ===== src/Tests/HexTests.antt =====
-- Dumps of numbers, and a request as an archive.
use uctool.Common.{◌%◌, ◌^◌, ◌≡◌, refl, pos, signed32}
use uctool.Hex.{hex2_int, hex2_int64}
use uctool.Hex.Reading.{hex_dump, hex2_int-dump}
use uctool.Center.Requests.{contains, accepted, un_serialize_boost}
use uctool.Center.Archive.{archive, un_serialize_boost-archive}
use uctool.Tests.Toys.{toy_chain, zeros, length-zeros}

hex2_int-dump_example :
    (hex2_int (hex_dump 4 4000000000) ≡ signed32 (4000000000 % 2 ^ 32))
    × (hex2_int64 (hex_dump 8 4000000000) ≡ signed32 (4000000000 % 2 ^ 32))
hex2_int-dump_example = hex2_int-dump 4000000000

un_serialize_boost-archive_example :
    un_serialize_boost toy_chain (archive (zeros 90) 111 4000000000 1 64 (zeros 128) 7)
    ≡ accepted (record {
      msgversion = pos 111;
      questtype = pos 1;
      time_stamps = signed32 (4000000000 % 2 ^ 32);
      txid = zeros 128;
      voutid = 7 % 2 ^ 32;
    })
un_serialize_boost-archive_example =
    un_serialize_boost-archive toy_chain (zeros 90) (zeros 128) 4000000000 7 (length-zeros 90)
      (length-zeros 128) (unfold contains zeros in refl)
