-- ===== src/Dpd/DpdToBinM.antt =====
-- src/decDPD.h: the table DPD2BINM, the number of a declet, times 1000000.
use cpp_decimal.Base.{ℕ, List, [], ◌∷◌}

abbrev pub dpd2binm : List ℕ
dpd2binm =
    0 ∷ 1000000 ∷ 2000000 ∷ 3000000 ∷ 4000000 ∷ 5000000 ∷ 6000000 ∷ 7000000 ∷ 8000000 ∷ 9000000
    ∷ 80000000 ∷ 81000000 ∷ 800000000 ∷ 801000000 ∷ 880000000 ∷ 881000000 ∷ 10000000 ∷ 11000000
    ∷ 12000000 ∷ 13000000 ∷ 14000000 ∷ 15000000 ∷ 16000000 ∷ 17000000 ∷ 18000000 ∷ 19000000
    ∷ 90000000 ∷ 91000000 ∷ 810000000 ∷ 811000000 ∷ 890000000 ∷ 891000000 ∷ 20000000 ∷ 21000000
    ∷ 22000000 ∷ 23000000 ∷ 24000000 ∷ 25000000 ∷ 26000000 ∷ 27000000 ∷ 28000000 ∷ 29000000
    ∷ 82000000 ∷ 83000000 ∷ 820000000 ∷ 821000000 ∷ 808000000 ∷ 809000000 ∷ 30000000 ∷ 31000000
    ∷ 32000000 ∷ 33000000 ∷ 34000000 ∷ 35000000 ∷ 36000000 ∷ 37000000 ∷ 38000000 ∷ 39000000
    ∷ 92000000 ∷ 93000000 ∷ 830000000 ∷ 831000000 ∷ 818000000 ∷ 819000000 ∷ 40000000 ∷ 41000000
    ∷ 42000000 ∷ 43000000 ∷ 44000000 ∷ 45000000 ∷ 46000000 ∷ 47000000 ∷ 48000000 ∷ 49000000
    ∷ 84000000 ∷ 85000000 ∷ 840000000 ∷ 841000000 ∷ 88000000 ∷ 89000000 ∷ 50000000 ∷ 51000000
    ∷ 52000000 ∷ 53000000 ∷ 54000000 ∷ 55000000 ∷ 56000000 ∷ 57000000 ∷ 58000000 ∷ 59000000
    ∷ 94000000 ∷ 95000000 ∷ 850000000 ∷ 851000000 ∷ 98000000 ∷ 99000000 ∷ 60000000 ∷ 61000000
    ∷ 62000000 ∷ 63000000 ∷ 64000000 ∷ 65000000 ∷ 66000000 ∷ 67000000 ∷ 68000000 ∷ 69000000
    ∷ 86000000 ∷ 87000000 ∷ 860000000 ∷ 861000000 ∷ 888000000 ∷ 889000000 ∷ 70000000 ∷ 71000000
    ∷ 72000000 ∷ 73000000 ∷ 74000000 ∷ 75000000 ∷ 76000000 ∷ 77000000 ∷ 78000000 ∷ 79000000
    ∷ 96000000 ∷ 97000000 ∷ 870000000 ∷ 871000000 ∷ 898000000 ∷ 899000000 ∷ 100000000 ∷ 101000000
    ∷ 102000000 ∷ 103000000 ∷ 104000000 ∷ 105000000 ∷ 106000000 ∷ 107000000 ∷ 108000000 ∷ 109000000
    ∷ 180000000 ∷ 181000000 ∷ 900000000 ∷ 901000000 ∷ 980000000 ∷ 981000000 ∷ 110000000 ∷ 111000000
    ∷ 112000000 ∷ 113000000 ∷ 114000000 ∷ 115000000 ∷ 116000000 ∷ 117000000 ∷ 118000000 ∷ 119000000
    ∷ 190000000 ∷ 191000000 ∷ 910000000 ∷ 911000000 ∷ 990000000 ∷ 991000000 ∷ 120000000 ∷ 121000000
    ∷ 122000000 ∷ 123000000 ∷ 124000000 ∷ 125000000 ∷ 126000000 ∷ 127000000 ∷ 128000000 ∷ 129000000
    ∷ 182000000 ∷ 183000000 ∷ 920000000 ∷ 921000000 ∷ 908000000 ∷ 909000000 ∷ 130000000 ∷ 131000000
    ∷ 132000000 ∷ 133000000 ∷ 134000000 ∷ 135000000 ∷ 136000000 ∷ 137000000 ∷ 138000000 ∷ 139000000
    ∷ 192000000 ∷ 193000000 ∷ 930000000 ∷ 931000000 ∷ 918000000 ∷ 919000000 ∷ 140000000 ∷ 141000000
    ∷ 142000000 ∷ 143000000 ∷ 144000000 ∷ 145000000 ∷ 146000000 ∷ 147000000 ∷ 148000000 ∷ 149000000
    ∷ 184000000 ∷ 185000000 ∷ 940000000 ∷ 941000000 ∷ 188000000 ∷ 189000000 ∷ 150000000 ∷ 151000000
    ∷ 152000000 ∷ 153000000 ∷ 154000000 ∷ 155000000 ∷ 156000000 ∷ 157000000 ∷ 158000000 ∷ 159000000
    ∷ 194000000 ∷ 195000000 ∷ 950000000 ∷ 951000000 ∷ 198000000 ∷ 199000000 ∷ 160000000 ∷ 161000000
    ∷ 162000000 ∷ 163000000 ∷ 164000000 ∷ 165000000 ∷ 166000000 ∷ 167000000 ∷ 168000000 ∷ 169000000
    ∷ 186000000 ∷ 187000000 ∷ 960000000 ∷ 961000000 ∷ 988000000 ∷ 989000000 ∷ 170000000 ∷ 171000000
    ∷ 172000000 ∷ 173000000 ∷ 174000000 ∷ 175000000 ∷ 176000000 ∷ 177000000 ∷ 178000000 ∷ 179000000
    ∷ 196000000 ∷ 197000000 ∷ 970000000 ∷ 971000000 ∷ 998000000 ∷ 999000000 ∷ 200000000 ∷ 201000000
    ∷ 202000000 ∷ 203000000 ∷ 204000000 ∷ 205000000 ∷ 206000000 ∷ 207000000 ∷ 208000000 ∷ 209000000
    ∷ 280000000 ∷ 281000000 ∷ 802000000 ∷ 803000000 ∷ 882000000 ∷ 883000000 ∷ 210000000 ∷ 211000000
    ∷ 212000000 ∷ 213000000 ∷ 214000000 ∷ 215000000 ∷ 216000000 ∷ 217000000 ∷ 218000000 ∷ 219000000
    ∷ 290000000 ∷ 291000000 ∷ 812000000 ∷ 813000000 ∷ 892000000 ∷ 893000000 ∷ 220000000 ∷ 221000000
    ∷ 222000000 ∷ 223000000 ∷ 224000000 ∷ 225000000 ∷ 226000000 ∷ 227000000 ∷ 228000000 ∷ 229000000
    ∷ 282000000 ∷ 283000000 ∷ 822000000 ∷ 823000000 ∷ 828000000 ∷ 829000000 ∷ 230000000 ∷ 231000000
    ∷ 232000000 ∷ 233000000 ∷ 234000000 ∷ 235000000 ∷ 236000000 ∷ 237000000 ∷ 238000000 ∷ 239000000
    ∷ 292000000 ∷ 293000000 ∷ 832000000 ∷ 833000000 ∷ 838000000 ∷ 839000000 ∷ 240000000 ∷ 241000000
    ∷ 242000000 ∷ 243000000 ∷ 244000000 ∷ 245000000 ∷ 246000000 ∷ 247000000 ∷ 248000000 ∷ 249000000
    ∷ 284000000 ∷ 285000000 ∷ 842000000 ∷ 843000000 ∷ 288000000 ∷ 289000000 ∷ 250000000 ∷ 251000000
    ∷ 252000000 ∷ 253000000 ∷ 254000000 ∷ 255000000 ∷ 256000000 ∷ 257000000 ∷ 258000000 ∷ 259000000
    ∷ 294000000 ∷ 295000000 ∷ 852000000 ∷ 853000000 ∷ 298000000 ∷ 299000000 ∷ 260000000 ∷ 261000000
    ∷ 262000000 ∷ 263000000 ∷ 264000000 ∷ 265000000 ∷ 266000000 ∷ 267000000 ∷ 268000000 ∷ 269000000
    ∷ 286000000 ∷ 287000000 ∷ 862000000 ∷ 863000000 ∷ 888000000 ∷ 889000000 ∷ 270000000 ∷ 271000000
    ∷ 272000000 ∷ 273000000 ∷ 274000000 ∷ 275000000 ∷ 276000000 ∷ 277000000 ∷ 278000000 ∷ 279000000
    ∷ 296000000 ∷ 297000000 ∷ 872000000 ∷ 873000000 ∷ 898000000 ∷ 899000000 ∷ 300000000 ∷ 301000000
    ∷ 302000000 ∷ 303000000 ∷ 304000000 ∷ 305000000 ∷ 306000000 ∷ 307000000 ∷ 308000000 ∷ 309000000
    ∷ 380000000 ∷ 381000000 ∷ 902000000 ∷ 903000000 ∷ 982000000 ∷ 983000000 ∷ 310000000 ∷ 311000000
    ∷ 312000000 ∷ 313000000 ∷ 314000000 ∷ 315000000 ∷ 316000000 ∷ 317000000 ∷ 318000000 ∷ 319000000
    ∷ 390000000 ∷ 391000000 ∷ 912000000 ∷ 913000000 ∷ 992000000 ∷ 993000000 ∷ 320000000 ∷ 321000000
    ∷ 322000000 ∷ 323000000 ∷ 324000000 ∷ 325000000 ∷ 326000000 ∷ 327000000 ∷ 328000000 ∷ 329000000
    ∷ 382000000 ∷ 383000000 ∷ 922000000 ∷ 923000000 ∷ 928000000 ∷ 929000000 ∷ 330000000 ∷ 331000000
    ∷ 332000000 ∷ 333000000 ∷ 334000000 ∷ 335000000 ∷ 336000000 ∷ 337000000 ∷ 338000000 ∷ 339000000
    ∷ 392000000 ∷ 393000000 ∷ 932000000 ∷ 933000000 ∷ 938000000 ∷ 939000000 ∷ 340000000 ∷ 341000000
    ∷ 342000000 ∷ 343000000 ∷ 344000000 ∷ 345000000 ∷ 346000000 ∷ 347000000 ∷ 348000000 ∷ 349000000
    ∷ 384000000 ∷ 385000000 ∷ 942000000 ∷ 943000000 ∷ 388000000 ∷ 389000000 ∷ 350000000 ∷ 351000000
    ∷ 352000000 ∷ 353000000 ∷ 354000000 ∷ 355000000 ∷ 356000000 ∷ 357000000 ∷ 358000000 ∷ 359000000
    ∷ 394000000 ∷ 395000000 ∷ 952000000 ∷ 953000000 ∷ 398000000 ∷ 399000000 ∷ 360000000 ∷ 361000000
    ∷ 362000000 ∷ 363000000 ∷ 364000000 ∷ 365000000 ∷ 366000000 ∷ 367000000 ∷ 368000000 ∷ 369000000
    ∷ 386000000 ∷ 387000000 ∷ 962000000 ∷ 963000000 ∷ 988000000 ∷ 989000000 ∷ 370000000 ∷ 371000000
    ∷ 372000000 ∷ 373000000 ∷ 374000000 ∷ 375000000 ∷ 376000000 ∷ 377000000 ∷ 378000000 ∷ 379000000
    ∷ 396000000 ∷ 397000000 ∷ 972000000 ∷ 973000000 ∷ 998000000 ∷ 999000000 ∷ 400000000 ∷ 401000000
    ∷ 402000000 ∷ 403000000 ∷ 404000000 ∷ 405000000 ∷ 406000000 ∷ 407000000 ∷ 408000000 ∷ 409000000
    ∷ 480000000 ∷ 481000000 ∷ 804000000 ∷ 805000000 ∷ 884000000 ∷ 885000000 ∷ 410000000 ∷ 411000000
    ∷ 412000000 ∷ 413000000 ∷ 414000000 ∷ 415000000 ∷ 416000000 ∷ 417000000 ∷ 418000000 ∷ 419000000
    ∷ 490000000 ∷ 491000000 ∷ 814000000 ∷ 815000000 ∷ 894000000 ∷ 895000000 ∷ 420000000 ∷ 421000000
    ∷ 422000000 ∷ 423000000 ∷ 424000000 ∷ 425000000 ∷ 426000000 ∷ 427000000 ∷ 428000000 ∷ 429000000
    ∷ 482000000 ∷ 483000000 ∷ 824000000 ∷ 825000000 ∷ 848000000 ∷ 849000000 ∷ 430000000 ∷ 431000000
    ∷ 432000000 ∷ 433000000 ∷ 434000000 ∷ 435000000 ∷ 436000000 ∷ 437000000 ∷ 438000000 ∷ 439000000
    ∷ 492000000 ∷ 493000000 ∷ 834000000 ∷ 835000000 ∷ 858000000 ∷ 859000000 ∷ 440000000 ∷ 441000000
    ∷ 442000000 ∷ 443000000 ∷ 444000000 ∷ 445000000 ∷ 446000000 ∷ 447000000 ∷ 448000000 ∷ 449000000
    ∷ 484000000 ∷ 485000000 ∷ 844000000 ∷ 845000000 ∷ 488000000 ∷ 489000000 ∷ 450000000 ∷ 451000000
    ∷ 452000000 ∷ 453000000 ∷ 454000000 ∷ 455000000 ∷ 456000000 ∷ 457000000 ∷ 458000000 ∷ 459000000
    ∷ 494000000 ∷ 495000000 ∷ 854000000 ∷ 855000000 ∷ 498000000 ∷ 499000000 ∷ 460000000 ∷ 461000000
    ∷ 462000000 ∷ 463000000 ∷ 464000000 ∷ 465000000 ∷ 466000000 ∷ 467000000 ∷ 468000000 ∷ 469000000
    ∷ 486000000 ∷ 487000000 ∷ 864000000 ∷ 865000000 ∷ 888000000 ∷ 889000000 ∷ 470000000 ∷ 471000000
    ∷ 472000000 ∷ 473000000 ∷ 474000000 ∷ 475000000 ∷ 476000000 ∷ 477000000 ∷ 478000000 ∷ 479000000
    ∷ 496000000 ∷ 497000000 ∷ 874000000 ∷ 875000000 ∷ 898000000 ∷ 899000000 ∷ 500000000 ∷ 501000000
    ∷ 502000000 ∷ 503000000 ∷ 504000000 ∷ 505000000 ∷ 506000000 ∷ 507000000 ∷ 508000000 ∷ 509000000
    ∷ 580000000 ∷ 581000000 ∷ 904000000 ∷ 905000000 ∷ 984000000 ∷ 985000000 ∷ 510000000 ∷ 511000000
    ∷ 512000000 ∷ 513000000 ∷ 514000000 ∷ 515000000 ∷ 516000000 ∷ 517000000 ∷ 518000000 ∷ 519000000
    ∷ 590000000 ∷ 591000000 ∷ 914000000 ∷ 915000000 ∷ 994000000 ∷ 995000000 ∷ 520000000 ∷ 521000000
    ∷ 522000000 ∷ 523000000 ∷ 524000000 ∷ 525000000 ∷ 526000000 ∷ 527000000 ∷ 528000000 ∷ 529000000
    ∷ 582000000 ∷ 583000000 ∷ 924000000 ∷ 925000000 ∷ 948000000 ∷ 949000000 ∷ 530000000 ∷ 531000000
    ∷ 532000000 ∷ 533000000 ∷ 534000000 ∷ 535000000 ∷ 536000000 ∷ 537000000 ∷ 538000000 ∷ 539000000
    ∷ 592000000 ∷ 593000000 ∷ 934000000 ∷ 935000000 ∷ 958000000 ∷ 959000000 ∷ 540000000 ∷ 541000000
    ∷ 542000000 ∷ 543000000 ∷ 544000000 ∷ 545000000 ∷ 546000000 ∷ 547000000 ∷ 548000000 ∷ 549000000
    ∷ 584000000 ∷ 585000000 ∷ 944000000 ∷ 945000000 ∷ 588000000 ∷ 589000000 ∷ 550000000 ∷ 551000000
    ∷ 552000000 ∷ 553000000 ∷ 554000000 ∷ 555000000 ∷ 556000000 ∷ 557000000 ∷ 558000000 ∷ 559000000
    ∷ 594000000 ∷ 595000000 ∷ 954000000 ∷ 955000000 ∷ 598000000 ∷ 599000000 ∷ 560000000 ∷ 561000000
    ∷ 562000000 ∷ 563000000 ∷ 564000000 ∷ 565000000 ∷ 566000000 ∷ 567000000 ∷ 568000000 ∷ 569000000
    ∷ 586000000 ∷ 587000000 ∷ 964000000 ∷ 965000000 ∷ 988000000 ∷ 989000000 ∷ 570000000 ∷ 571000000
    ∷ 572000000 ∷ 573000000 ∷ 574000000 ∷ 575000000 ∷ 576000000 ∷ 577000000 ∷ 578000000 ∷ 579000000
    ∷ 596000000 ∷ 597000000 ∷ 974000000 ∷ 975000000 ∷ 998000000 ∷ 999000000 ∷ 600000000 ∷ 601000000
    ∷ 602000000 ∷ 603000000 ∷ 604000000 ∷ 605000000 ∷ 606000000 ∷ 607000000 ∷ 608000000 ∷ 609000000
    ∷ 680000000 ∷ 681000000 ∷ 806000000 ∷ 807000000 ∷ 886000000 ∷ 887000000 ∷ 610000000 ∷ 611000000
    ∷ 612000000 ∷ 613000000 ∷ 614000000 ∷ 615000000 ∷ 616000000 ∷ 617000000 ∷ 618000000 ∷ 619000000
    ∷ 690000000 ∷ 691000000 ∷ 816000000 ∷ 817000000 ∷ 896000000 ∷ 897000000 ∷ 620000000 ∷ 621000000
    ∷ 622000000 ∷ 623000000 ∷ 624000000 ∷ 625000000 ∷ 626000000 ∷ 627000000 ∷ 628000000 ∷ 629000000
    ∷ 682000000 ∷ 683000000 ∷ 826000000 ∷ 827000000 ∷ 868000000 ∷ 869000000 ∷ 630000000 ∷ 631000000
    ∷ 632000000 ∷ 633000000 ∷ 634000000 ∷ 635000000 ∷ 636000000 ∷ 637000000 ∷ 638000000 ∷ 639000000
    ∷ 692000000 ∷ 693000000 ∷ 836000000 ∷ 837000000 ∷ 878000000 ∷ 879000000 ∷ 640000000 ∷ 641000000
    ∷ 642000000 ∷ 643000000 ∷ 644000000 ∷ 645000000 ∷ 646000000 ∷ 647000000 ∷ 648000000 ∷ 649000000
    ∷ 684000000 ∷ 685000000 ∷ 846000000 ∷ 847000000 ∷ 688000000 ∷ 689000000 ∷ 650000000 ∷ 651000000
    ∷ 652000000 ∷ 653000000 ∷ 654000000 ∷ 655000000 ∷ 656000000 ∷ 657000000 ∷ 658000000 ∷ 659000000
    ∷ 694000000 ∷ 695000000 ∷ 856000000 ∷ 857000000 ∷ 698000000 ∷ 699000000 ∷ 660000000 ∷ 661000000
    ∷ 662000000 ∷ 663000000 ∷ 664000000 ∷ 665000000 ∷ 666000000 ∷ 667000000 ∷ 668000000 ∷ 669000000
    ∷ 686000000 ∷ 687000000 ∷ 866000000 ∷ 867000000 ∷ 888000000 ∷ 889000000 ∷ 670000000 ∷ 671000000
    ∷ 672000000 ∷ 673000000 ∷ 674000000 ∷ 675000000 ∷ 676000000 ∷ 677000000 ∷ 678000000 ∷ 679000000
    ∷ 696000000 ∷ 697000000 ∷ 876000000 ∷ 877000000 ∷ 898000000 ∷ 899000000 ∷ 700000000 ∷ 701000000
    ∷ 702000000 ∷ 703000000 ∷ 704000000 ∷ 705000000 ∷ 706000000 ∷ 707000000 ∷ 708000000 ∷ 709000000
    ∷ 780000000 ∷ 781000000 ∷ 906000000 ∷ 907000000 ∷ 986000000 ∷ 987000000 ∷ 710000000 ∷ 711000000
    ∷ 712000000 ∷ 713000000 ∷ 714000000 ∷ 715000000 ∷ 716000000 ∷ 717000000 ∷ 718000000 ∷ 719000000
    ∷ 790000000 ∷ 791000000 ∷ 916000000 ∷ 917000000 ∷ 996000000 ∷ 997000000 ∷ 720000000 ∷ 721000000
    ∷ 722000000 ∷ 723000000 ∷ 724000000 ∷ 725000000 ∷ 726000000 ∷ 727000000 ∷ 728000000 ∷ 729000000
    ∷ 782000000 ∷ 783000000 ∷ 926000000 ∷ 927000000 ∷ 968000000 ∷ 969000000 ∷ 730000000 ∷ 731000000
    ∷ 732000000 ∷ 733000000 ∷ 734000000 ∷ 735000000 ∷ 736000000 ∷ 737000000 ∷ 738000000 ∷ 739000000
    ∷ 792000000 ∷ 793000000 ∷ 936000000 ∷ 937000000 ∷ 978000000 ∷ 979000000 ∷ 740000000 ∷ 741000000
    ∷ 742000000 ∷ 743000000 ∷ 744000000 ∷ 745000000 ∷ 746000000 ∷ 747000000 ∷ 748000000 ∷ 749000000
    ∷ 784000000 ∷ 785000000 ∷ 946000000 ∷ 947000000 ∷ 788000000 ∷ 789000000 ∷ 750000000 ∷ 751000000
    ∷ 752000000 ∷ 753000000 ∷ 754000000 ∷ 755000000 ∷ 756000000 ∷ 757000000 ∷ 758000000 ∷ 759000000
    ∷ 794000000 ∷ 795000000 ∷ 956000000 ∷ 957000000 ∷ 798000000 ∷ 799000000 ∷ 760000000 ∷ 761000000
    ∷ 762000000 ∷ 763000000 ∷ 764000000 ∷ 765000000 ∷ 766000000 ∷ 767000000 ∷ 768000000 ∷ 769000000
    ∷ 786000000 ∷ 787000000 ∷ 966000000 ∷ 967000000 ∷ 988000000 ∷ 989000000 ∷ 770000000 ∷ 771000000
    ∷ 772000000 ∷ 773000000 ∷ 774000000 ∷ 775000000 ∷ 776000000 ∷ 777000000 ∷ 778000000 ∷ 779000000
    ∷ 796000000 ∷ 797000000 ∷ 976000000 ∷ 977000000 ∷ 998000000 ∷ 999000000 ∷ []
