-- ===== src/Dpd/DpdToBcd.antt =====
-- src/decDPD.h: the table DPD2BCD, the packed digits of a declet.
use cpp_decimal.Base.{ℕ, List, [], ◌∷◌}

abbrev pub dpd2bcd : List ℕ
dpd2bcd =
    0 ∷ 1 ∷ 2 ∷ 3 ∷ 4 ∷ 5 ∷ 6 ∷ 7 ∷ 8 ∷ 9 ∷ 128 ∷ 129 ∷ 2048 ∷ 2049 ∷ 2176 ∷ 2177 ∷ 16 ∷ 17 ∷ 18
    ∷ 19 ∷ 20 ∷ 21 ∷ 22 ∷ 23 ∷ 24 ∷ 25 ∷ 144 ∷ 145 ∷ 2064 ∷ 2065 ∷ 2192 ∷ 2193 ∷ 32 ∷ 33 ∷ 34 ∷ 35
    ∷ 36 ∷ 37 ∷ 38 ∷ 39 ∷ 40 ∷ 41 ∷ 130 ∷ 131 ∷ 2080 ∷ 2081 ∷ 2056 ∷ 2057 ∷ 48 ∷ 49 ∷ 50 ∷ 51 ∷ 52
    ∷ 53 ∷ 54 ∷ 55 ∷ 56 ∷ 57 ∷ 146 ∷ 147 ∷ 2096 ∷ 2097 ∷ 2072 ∷ 2073 ∷ 64 ∷ 65 ∷ 66 ∷ 67 ∷ 68 ∷ 69
    ∷ 70 ∷ 71 ∷ 72 ∷ 73 ∷ 132 ∷ 133 ∷ 2112 ∷ 2113 ∷ 136 ∷ 137 ∷ 80 ∷ 81 ∷ 82 ∷ 83 ∷ 84 ∷ 85 ∷ 86
    ∷ 87 ∷ 88 ∷ 89 ∷ 148 ∷ 149 ∷ 2128 ∷ 2129 ∷ 152 ∷ 153 ∷ 96 ∷ 97 ∷ 98 ∷ 99 ∷ 100 ∷ 101 ∷ 102 ∷ 103
    ∷ 104 ∷ 105 ∷ 134 ∷ 135 ∷ 2144 ∷ 2145 ∷ 2184 ∷ 2185 ∷ 112 ∷ 113 ∷ 114 ∷ 115 ∷ 116 ∷ 117 ∷ 118
    ∷ 119 ∷ 120 ∷ 121 ∷ 150 ∷ 151 ∷ 2160 ∷ 2161 ∷ 2200 ∷ 2201 ∷ 256 ∷ 257 ∷ 258 ∷ 259 ∷ 260 ∷ 261
    ∷ 262 ∷ 263 ∷ 264 ∷ 265 ∷ 384 ∷ 385 ∷ 2304 ∷ 2305 ∷ 2432 ∷ 2433 ∷ 272 ∷ 273 ∷ 274 ∷ 275 ∷ 276
    ∷ 277 ∷ 278 ∷ 279 ∷ 280 ∷ 281 ∷ 400 ∷ 401 ∷ 2320 ∷ 2321 ∷ 2448 ∷ 2449 ∷ 288 ∷ 289 ∷ 290 ∷ 291
    ∷ 292 ∷ 293 ∷ 294 ∷ 295 ∷ 296 ∷ 297 ∷ 386 ∷ 387 ∷ 2336 ∷ 2337 ∷ 2312 ∷ 2313 ∷ 304 ∷ 305 ∷ 306
    ∷ 307 ∷ 308 ∷ 309 ∷ 310 ∷ 311 ∷ 312 ∷ 313 ∷ 402 ∷ 403 ∷ 2352 ∷ 2353 ∷ 2328 ∷ 2329 ∷ 320 ∷ 321
    ∷ 322 ∷ 323 ∷ 324 ∷ 325 ∷ 326 ∷ 327 ∷ 328 ∷ 329 ∷ 388 ∷ 389 ∷ 2368 ∷ 2369 ∷ 392 ∷ 393 ∷ 336
    ∷ 337 ∷ 338 ∷ 339 ∷ 340 ∷ 341 ∷ 342 ∷ 343 ∷ 344 ∷ 345 ∷ 404 ∷ 405 ∷ 2384 ∷ 2385 ∷ 408 ∷ 409
    ∷ 352 ∷ 353 ∷ 354 ∷ 355 ∷ 356 ∷ 357 ∷ 358 ∷ 359 ∷ 360 ∷ 361 ∷ 390 ∷ 391 ∷ 2400 ∷ 2401 ∷ 2440
    ∷ 2441 ∷ 368 ∷ 369 ∷ 370 ∷ 371 ∷ 372 ∷ 373 ∷ 374 ∷ 375 ∷ 376 ∷ 377 ∷ 406 ∷ 407 ∷ 2416 ∷ 2417
    ∷ 2456 ∷ 2457 ∷ 512 ∷ 513 ∷ 514 ∷ 515 ∷ 516 ∷ 517 ∷ 518 ∷ 519 ∷ 520 ∷ 521 ∷ 640 ∷ 641 ∷ 2050
    ∷ 2051 ∷ 2178 ∷ 2179 ∷ 528 ∷ 529 ∷ 530 ∷ 531 ∷ 532 ∷ 533 ∷ 534 ∷ 535 ∷ 536 ∷ 537 ∷ 656 ∷ 657
    ∷ 2066 ∷ 2067 ∷ 2194 ∷ 2195 ∷ 544 ∷ 545 ∷ 546 ∷ 547 ∷ 548 ∷ 549 ∷ 550 ∷ 551 ∷ 552 ∷ 553 ∷ 642
    ∷ 643 ∷ 2082 ∷ 2083 ∷ 2088 ∷ 2089 ∷ 560 ∷ 561 ∷ 562 ∷ 563 ∷ 564 ∷ 565 ∷ 566 ∷ 567 ∷ 568 ∷ 569
    ∷ 658 ∷ 659 ∷ 2098 ∷ 2099 ∷ 2104 ∷ 2105 ∷ 576 ∷ 577 ∷ 578 ∷ 579 ∷ 580 ∷ 581 ∷ 582 ∷ 583 ∷ 584
    ∷ 585 ∷ 644 ∷ 645 ∷ 2114 ∷ 2115 ∷ 648 ∷ 649 ∷ 592 ∷ 593 ∷ 594 ∷ 595 ∷ 596 ∷ 597 ∷ 598 ∷ 599
    ∷ 600 ∷ 601 ∷ 660 ∷ 661 ∷ 2130 ∷ 2131 ∷ 664 ∷ 665 ∷ 608 ∷ 609 ∷ 610 ∷ 611 ∷ 612 ∷ 613 ∷ 614
    ∷ 615 ∷ 616 ∷ 617 ∷ 646 ∷ 647 ∷ 2146 ∷ 2147 ∷ 2184 ∷ 2185 ∷ 624 ∷ 625 ∷ 626 ∷ 627 ∷ 628 ∷ 629
    ∷ 630 ∷ 631 ∷ 632 ∷ 633 ∷ 662 ∷ 663 ∷ 2162 ∷ 2163 ∷ 2200 ∷ 2201 ∷ 768 ∷ 769 ∷ 770 ∷ 771 ∷ 772
    ∷ 773 ∷ 774 ∷ 775 ∷ 776 ∷ 777 ∷ 896 ∷ 897 ∷ 2306 ∷ 2307 ∷ 2434 ∷ 2435 ∷ 784 ∷ 785 ∷ 786 ∷ 787
    ∷ 788 ∷ 789 ∷ 790 ∷ 791 ∷ 792 ∷ 793 ∷ 912 ∷ 913 ∷ 2322 ∷ 2323 ∷ 2450 ∷ 2451 ∷ 800 ∷ 801 ∷ 802
    ∷ 803 ∷ 804 ∷ 805 ∷ 806 ∷ 807 ∷ 808 ∷ 809 ∷ 898 ∷ 899 ∷ 2338 ∷ 2339 ∷ 2344 ∷ 2345 ∷ 816 ∷ 817
    ∷ 818 ∷ 819 ∷ 820 ∷ 821 ∷ 822 ∷ 823 ∷ 824 ∷ 825 ∷ 914 ∷ 915 ∷ 2354 ∷ 2355 ∷ 2360 ∷ 2361 ∷ 832
    ∷ 833 ∷ 834 ∷ 835 ∷ 836 ∷ 837 ∷ 838 ∷ 839 ∷ 840 ∷ 841 ∷ 900 ∷ 901 ∷ 2370 ∷ 2371 ∷ 904 ∷ 905
    ∷ 848 ∷ 849 ∷ 850 ∷ 851 ∷ 852 ∷ 853 ∷ 854 ∷ 855 ∷ 856 ∷ 857 ∷ 916 ∷ 917 ∷ 2386 ∷ 2387 ∷ 920
    ∷ 921 ∷ 864 ∷ 865 ∷ 866 ∷ 867 ∷ 868 ∷ 869 ∷ 870 ∷ 871 ∷ 872 ∷ 873 ∷ 902 ∷ 903 ∷ 2402 ∷ 2403
    ∷ 2440 ∷ 2441 ∷ 880 ∷ 881 ∷ 882 ∷ 883 ∷ 884 ∷ 885 ∷ 886 ∷ 887 ∷ 888 ∷ 889 ∷ 918 ∷ 919 ∷ 2418
    ∷ 2419 ∷ 2456 ∷ 2457 ∷ 1024 ∷ 1025 ∷ 1026 ∷ 1027 ∷ 1028 ∷ 1029 ∷ 1030 ∷ 1031 ∷ 1032 ∷ 1033
    ∷ 1152 ∷ 1153 ∷ 2052 ∷ 2053 ∷ 2180 ∷ 2181 ∷ 1040 ∷ 1041 ∷ 1042 ∷ 1043 ∷ 1044 ∷ 1045 ∷ 1046
    ∷ 1047 ∷ 1048 ∷ 1049 ∷ 1168 ∷ 1169 ∷ 2068 ∷ 2069 ∷ 2196 ∷ 2197 ∷ 1056 ∷ 1057 ∷ 1058 ∷ 1059
    ∷ 1060 ∷ 1061 ∷ 1062 ∷ 1063 ∷ 1064 ∷ 1065 ∷ 1154 ∷ 1155 ∷ 2084 ∷ 2085 ∷ 2120 ∷ 2121 ∷ 1072
    ∷ 1073 ∷ 1074 ∷ 1075 ∷ 1076 ∷ 1077 ∷ 1078 ∷ 1079 ∷ 1080 ∷ 1081 ∷ 1170 ∷ 1171 ∷ 2100 ∷ 2101
    ∷ 2136 ∷ 2137 ∷ 1088 ∷ 1089 ∷ 1090 ∷ 1091 ∷ 1092 ∷ 1093 ∷ 1094 ∷ 1095 ∷ 1096 ∷ 1097 ∷ 1156
    ∷ 1157 ∷ 2116 ∷ 2117 ∷ 1160 ∷ 1161 ∷ 1104 ∷ 1105 ∷ 1106 ∷ 1107 ∷ 1108 ∷ 1109 ∷ 1110 ∷ 1111
    ∷ 1112 ∷ 1113 ∷ 1172 ∷ 1173 ∷ 2132 ∷ 2133 ∷ 1176 ∷ 1177 ∷ 1120 ∷ 1121 ∷ 1122 ∷ 1123 ∷ 1124
    ∷ 1125 ∷ 1126 ∷ 1127 ∷ 1128 ∷ 1129 ∷ 1158 ∷ 1159 ∷ 2148 ∷ 2149 ∷ 2184 ∷ 2185 ∷ 1136 ∷ 1137
    ∷ 1138 ∷ 1139 ∷ 1140 ∷ 1141 ∷ 1142 ∷ 1143 ∷ 1144 ∷ 1145 ∷ 1174 ∷ 1175 ∷ 2164 ∷ 2165 ∷ 2200
    ∷ 2201 ∷ 1280 ∷ 1281 ∷ 1282 ∷ 1283 ∷ 1284 ∷ 1285 ∷ 1286 ∷ 1287 ∷ 1288 ∷ 1289 ∷ 1408 ∷ 1409
    ∷ 2308 ∷ 2309 ∷ 2436 ∷ 2437 ∷ 1296 ∷ 1297 ∷ 1298 ∷ 1299 ∷ 1300 ∷ 1301 ∷ 1302 ∷ 1303 ∷ 1304
    ∷ 1305 ∷ 1424 ∷ 1425 ∷ 2324 ∷ 2325 ∷ 2452 ∷ 2453 ∷ 1312 ∷ 1313 ∷ 1314 ∷ 1315 ∷ 1316 ∷ 1317
    ∷ 1318 ∷ 1319 ∷ 1320 ∷ 1321 ∷ 1410 ∷ 1411 ∷ 2340 ∷ 2341 ∷ 2376 ∷ 2377 ∷ 1328 ∷ 1329 ∷ 1330
    ∷ 1331 ∷ 1332 ∷ 1333 ∷ 1334 ∷ 1335 ∷ 1336 ∷ 1337 ∷ 1426 ∷ 1427 ∷ 2356 ∷ 2357 ∷ 2392 ∷ 2393
    ∷ 1344 ∷ 1345 ∷ 1346 ∷ 1347 ∷ 1348 ∷ 1349 ∷ 1350 ∷ 1351 ∷ 1352 ∷ 1353 ∷ 1412 ∷ 1413 ∷ 2372
    ∷ 2373 ∷ 1416 ∷ 1417 ∷ 1360 ∷ 1361 ∷ 1362 ∷ 1363 ∷ 1364 ∷ 1365 ∷ 1366 ∷ 1367 ∷ 1368 ∷ 1369
    ∷ 1428 ∷ 1429 ∷ 2388 ∷ 2389 ∷ 1432 ∷ 1433 ∷ 1376 ∷ 1377 ∷ 1378 ∷ 1379 ∷ 1380 ∷ 1381 ∷ 1382
    ∷ 1383 ∷ 1384 ∷ 1385 ∷ 1414 ∷ 1415 ∷ 2404 ∷ 2405 ∷ 2440 ∷ 2441 ∷ 1392 ∷ 1393 ∷ 1394 ∷ 1395
    ∷ 1396 ∷ 1397 ∷ 1398 ∷ 1399 ∷ 1400 ∷ 1401 ∷ 1430 ∷ 1431 ∷ 2420 ∷ 2421 ∷ 2456 ∷ 2457 ∷ 1536
    ∷ 1537 ∷ 1538 ∷ 1539 ∷ 1540 ∷ 1541 ∷ 1542 ∷ 1543 ∷ 1544 ∷ 1545 ∷ 1664 ∷ 1665 ∷ 2054 ∷ 2055
    ∷ 2182 ∷ 2183 ∷ 1552 ∷ 1553 ∷ 1554 ∷ 1555 ∷ 1556 ∷ 1557 ∷ 1558 ∷ 1559 ∷ 1560 ∷ 1561 ∷ 1680
    ∷ 1681 ∷ 2070 ∷ 2071 ∷ 2198 ∷ 2199 ∷ 1568 ∷ 1569 ∷ 1570 ∷ 1571 ∷ 1572 ∷ 1573 ∷ 1574 ∷ 1575
    ∷ 1576 ∷ 1577 ∷ 1666 ∷ 1667 ∷ 2086 ∷ 2087 ∷ 2152 ∷ 2153 ∷ 1584 ∷ 1585 ∷ 1586 ∷ 1587 ∷ 1588
    ∷ 1589 ∷ 1590 ∷ 1591 ∷ 1592 ∷ 1593 ∷ 1682 ∷ 1683 ∷ 2102 ∷ 2103 ∷ 2168 ∷ 2169 ∷ 1600 ∷ 1601
    ∷ 1602 ∷ 1603 ∷ 1604 ∷ 1605 ∷ 1606 ∷ 1607 ∷ 1608 ∷ 1609 ∷ 1668 ∷ 1669 ∷ 2118 ∷ 2119 ∷ 1672
    ∷ 1673 ∷ 1616 ∷ 1617 ∷ 1618 ∷ 1619 ∷ 1620 ∷ 1621 ∷ 1622 ∷ 1623 ∷ 1624 ∷ 1625 ∷ 1684 ∷ 1685
    ∷ 2134 ∷ 2135 ∷ 1688 ∷ 1689 ∷ 1632 ∷ 1633 ∷ 1634 ∷ 1635 ∷ 1636 ∷ 1637 ∷ 1638 ∷ 1639 ∷ 1640
    ∷ 1641 ∷ 1670 ∷ 1671 ∷ 2150 ∷ 2151 ∷ 2184 ∷ 2185 ∷ 1648 ∷ 1649 ∷ 1650 ∷ 1651 ∷ 1652 ∷ 1653
    ∷ 1654 ∷ 1655 ∷ 1656 ∷ 1657 ∷ 1686 ∷ 1687 ∷ 2166 ∷ 2167 ∷ 2200 ∷ 2201 ∷ 1792 ∷ 1793 ∷ 1794
    ∷ 1795 ∷ 1796 ∷ 1797 ∷ 1798 ∷ 1799 ∷ 1800 ∷ 1801 ∷ 1920 ∷ 1921 ∷ 2310 ∷ 2311 ∷ 2438 ∷ 2439
    ∷ 1808 ∷ 1809 ∷ 1810 ∷ 1811 ∷ 1812 ∷ 1813 ∷ 1814 ∷ 1815 ∷ 1816 ∷ 1817 ∷ 1936 ∷ 1937 ∷ 2326
    ∷ 2327 ∷ 2454 ∷ 2455 ∷ 1824 ∷ 1825 ∷ 1826 ∷ 1827 ∷ 1828 ∷ 1829 ∷ 1830 ∷ 1831 ∷ 1832 ∷ 1833
    ∷ 1922 ∷ 1923 ∷ 2342 ∷ 2343 ∷ 2408 ∷ 2409 ∷ 1840 ∷ 1841 ∷ 1842 ∷ 1843 ∷ 1844 ∷ 1845 ∷ 1846
    ∷ 1847 ∷ 1848 ∷ 1849 ∷ 1938 ∷ 1939 ∷ 2358 ∷ 2359 ∷ 2424 ∷ 2425 ∷ 1856 ∷ 1857 ∷ 1858 ∷ 1859
    ∷ 1860 ∷ 1861 ∷ 1862 ∷ 1863 ∷ 1864 ∷ 1865 ∷ 1924 ∷ 1925 ∷ 2374 ∷ 2375 ∷ 1928 ∷ 1929 ∷ 1872
    ∷ 1873 ∷ 1874 ∷ 1875 ∷ 1876 ∷ 1877 ∷ 1878 ∷ 1879 ∷ 1880 ∷ 1881 ∷ 1940 ∷ 1941 ∷ 2390 ∷ 2391
    ∷ 1944 ∷ 1945 ∷ 1888 ∷ 1889 ∷ 1890 ∷ 1891 ∷ 1892 ∷ 1893 ∷ 1894 ∷ 1895 ∷ 1896 ∷ 1897 ∷ 1926
    ∷ 1927 ∷ 2406 ∷ 2407 ∷ 2440 ∷ 2441 ∷ 1904 ∷ 1905 ∷ 1906 ∷ 1907 ∷ 1908 ∷ 1909 ∷ 1910 ∷ 1911
    ∷ 1912 ∷ 1913 ∷ 1942 ∷ 1943 ∷ 2422 ∷ 2423 ∷ 2456 ∷ 2457 ∷ []
