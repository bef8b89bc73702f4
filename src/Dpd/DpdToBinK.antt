-- ===== src/Dpd/DpdToBinK.antt =====
-- src/decDPD.h: the table DPD2BINK, the number of a declet, times 1000.
use cpp_decimal.Base.{ℕ, List, [], ◌∷◌}

abbrev pub dpd2bink : List ℕ
dpd2bink =
    0 ∷ 1000 ∷ 2000 ∷ 3000 ∷ 4000 ∷ 5000 ∷ 6000 ∷ 7000 ∷ 8000 ∷ 9000 ∷ 80000 ∷ 81000 ∷ 800000
    ∷ 801000 ∷ 880000 ∷ 881000 ∷ 10000 ∷ 11000 ∷ 12000 ∷ 13000 ∷ 14000 ∷ 15000 ∷ 16000 ∷ 17000
    ∷ 18000 ∷ 19000 ∷ 90000 ∷ 91000 ∷ 810000 ∷ 811000 ∷ 890000 ∷ 891000 ∷ 20000 ∷ 21000 ∷ 22000
    ∷ 23000 ∷ 24000 ∷ 25000 ∷ 26000 ∷ 27000 ∷ 28000 ∷ 29000 ∷ 82000 ∷ 83000 ∷ 820000 ∷ 821000
    ∷ 808000 ∷ 809000 ∷ 30000 ∷ 31000 ∷ 32000 ∷ 33000 ∷ 34000 ∷ 35000 ∷ 36000 ∷ 37000 ∷ 38000
    ∷ 39000 ∷ 92000 ∷ 93000 ∷ 830000 ∷ 831000 ∷ 818000 ∷ 819000 ∷ 40000 ∷ 41000 ∷ 42000 ∷ 43000
    ∷ 44000 ∷ 45000 ∷ 46000 ∷ 47000 ∷ 48000 ∷ 49000 ∷ 84000 ∷ 85000 ∷ 840000 ∷ 841000 ∷ 88000
    ∷ 89000 ∷ 50000 ∷ 51000 ∷ 52000 ∷ 53000 ∷ 54000 ∷ 55000 ∷ 56000 ∷ 57000 ∷ 58000 ∷ 59000 ∷ 94000
    ∷ 95000 ∷ 850000 ∷ 851000 ∷ 98000 ∷ 99000 ∷ 60000 ∷ 61000 ∷ 62000 ∷ 63000 ∷ 64000 ∷ 65000
    ∷ 66000 ∷ 67000 ∷ 68000 ∷ 69000 ∷ 86000 ∷ 87000 ∷ 860000 ∷ 861000 ∷ 888000 ∷ 889000 ∷ 70000
    ∷ 71000 ∷ 72000 ∷ 73000 ∷ 74000 ∷ 75000 ∷ 76000 ∷ 77000 ∷ 78000 ∷ 79000 ∷ 96000 ∷ 97000 ∷ 870000
    ∷ 871000 ∷ 898000 ∷ 899000 ∷ 100000 ∷ 101000 ∷ 102000 ∷ 103000 ∷ 104000 ∷ 105000 ∷ 106000
    ∷ 107000 ∷ 108000 ∷ 109000 ∷ 180000 ∷ 181000 ∷ 900000 ∷ 901000 ∷ 980000 ∷ 981000 ∷ 110000
    ∷ 111000 ∷ 112000 ∷ 113000 ∷ 114000 ∷ 115000 ∷ 116000 ∷ 117000 ∷ 118000 ∷ 119000 ∷ 190000
    ∷ 191000 ∷ 910000 ∷ 911000 ∷ 990000 ∷ 991000 ∷ 120000 ∷ 121000 ∷ 122000 ∷ 123000 ∷ 124000
    ∷ 125000 ∷ 126000 ∷ 127000 ∷ 128000 ∷ 129000 ∷ 182000 ∷ 183000 ∷ 920000 ∷ 921000 ∷ 908000
    ∷ 909000 ∷ 130000 ∷ 131000 ∷ 132000 ∷ 133000 ∷ 134000 ∷ 135000 ∷ 136000 ∷ 137000 ∷ 138000
    ∷ 139000 ∷ 192000 ∷ 193000 ∷ 930000 ∷ 931000 ∷ 918000 ∷ 919000 ∷ 140000 ∷ 141000 ∷ 142000
    ∷ 143000 ∷ 144000 ∷ 145000 ∷ 146000 ∷ 147000 ∷ 148000 ∷ 149000 ∷ 184000 ∷ 185000 ∷ 940000
    ∷ 941000 ∷ 188000 ∷ 189000 ∷ 150000 ∷ 151000 ∷ 152000 ∷ 153000 ∷ 154000 ∷ 155000 ∷ 156000
    ∷ 157000 ∷ 158000 ∷ 159000 ∷ 194000 ∷ 195000 ∷ 950000 ∷ 951000 ∷ 198000 ∷ 199000 ∷ 160000
    ∷ 161000 ∷ 162000 ∷ 163000 ∷ 164000 ∷ 165000 ∷ 166000 ∷ 167000 ∷ 168000 ∷ 169000 ∷ 186000
    ∷ 187000 ∷ 960000 ∷ 961000 ∷ 988000 ∷ 989000 ∷ 170000 ∷ 171000 ∷ 172000 ∷ 173000 ∷ 174000
    ∷ 175000 ∷ 176000 ∷ 177000 ∷ 178000 ∷ 179000 ∷ 196000 ∷ 197000 ∷ 970000 ∷ 971000 ∷ 998000
    ∷ 999000 ∷ 200000 ∷ 201000 ∷ 202000 ∷ 203000 ∷ 204000 ∷ 205000 ∷ 206000 ∷ 207000 ∷ 208000
    ∷ 209000 ∷ 280000 ∷ 281000 ∷ 802000 ∷ 803000 ∷ 882000 ∷ 883000 ∷ 210000 ∷ 211000 ∷ 212000
    ∷ 213000 ∷ 214000 ∷ 215000 ∷ 216000 ∷ 217000 ∷ 218000 ∷ 219000 ∷ 290000 ∷ 291000 ∷ 812000
    ∷ 813000 ∷ 892000 ∷ 893000 ∷ 220000 ∷ 221000 ∷ 222000 ∷ 223000 ∷ 224000 ∷ 225000 ∷ 226000
    ∷ 227000 ∷ 228000 ∷ 229000 ∷ 282000 ∷ 283000 ∷ 822000 ∷ 823000 ∷ 828000 ∷ 829000 ∷ 230000
    ∷ 231000 ∷ 232000 ∷ 233000 ∷ 234000 ∷ 235000 ∷ 236000 ∷ 237000 ∷ 238000 ∷ 239000 ∷ 292000
    ∷ 293000 ∷ 832000 ∷ 833000 ∷ 838000 ∷ 839000 ∷ 240000 ∷ 241000 ∷ 242000 ∷ 243000 ∷ 244000
    ∷ 245000 ∷ 246000 ∷ 247000 ∷ 248000 ∷ 249000 ∷ 284000 ∷ 285000 ∷ 842000 ∷ 843000 ∷ 288000
    ∷ 289000 ∷ 250000 ∷ 251000 ∷ 252000 ∷ 253000 ∷ 254000 ∷ 255000 ∷ 256000 ∷ 257000 ∷ 258000
    ∷ 259000 ∷ 294000 ∷ 295000 ∷ 852000 ∷ 853000 ∷ 298000 ∷ 299000 ∷ 260000 ∷ 261000 ∷ 262000
    ∷ 263000 ∷ 264000 ∷ 265000 ∷ 266000 ∷ 267000 ∷ 268000 ∷ 269000 ∷ 286000 ∷ 287000 ∷ 862000
    ∷ 863000 ∷ 888000 ∷ 889000 ∷ 270000 ∷ 271000 ∷ 272000 ∷ 273000 ∷ 274000 ∷ 275000 ∷ 276000
    ∷ 277000 ∷ 278000 ∷ 279000 ∷ 296000 ∷ 297000 ∷ 872000 ∷ 873000 ∷ 898000 ∷ 899000 ∷ 300000
    ∷ 301000 ∷ 302000 ∷ 303000 ∷ 304000 ∷ 305000 ∷ 306000 ∷ 307000 ∷ 308000 ∷ 309000 ∷ 380000
    ∷ 381000 ∷ 902000 ∷ 903000 ∷ 982000 ∷ 983000 ∷ 310000 ∷ 311000 ∷ 312000 ∷ 313000 ∷ 314000
    ∷ 315000 ∷ 316000 ∷ 317000 ∷ 318000 ∷ 319000 ∷ 390000 ∷ 391000 ∷ 912000 ∷ 913000 ∷ 992000
    ∷ 993000 ∷ 320000 ∷ 321000 ∷ 322000 ∷ 323000 ∷ 324000 ∷ 325000 ∷ 326000 ∷ 327000 ∷ 328000
    ∷ 329000 ∷ 382000 ∷ 383000 ∷ 922000 ∷ 923000 ∷ 928000 ∷ 929000 ∷ 330000 ∷ 331000 ∷ 332000
    ∷ 333000 ∷ 334000 ∷ 335000 ∷ 336000 ∷ 337000 ∷ 338000 ∷ 339000 ∷ 392000 ∷ 393000 ∷ 932000
    ∷ 933000 ∷ 938000 ∷ 939000 ∷ 340000 ∷ 341000 ∷ 342000 ∷ 343000 ∷ 344000 ∷ 345000 ∷ 346000
    ∷ 347000 ∷ 348000 ∷ 349000 ∷ 384000 ∷ 385000 ∷ 942000 ∷ 943000 ∷ 388000 ∷ 389000 ∷ 350000
    ∷ 351000 ∷ 352000 ∷ 353000 ∷ 354000 ∷ 355000 ∷ 356000 ∷ 357000 ∷ 358000 ∷ 359000 ∷ 394000
    ∷ 395000 ∷ 952000 ∷ 953000 ∷ 398000 ∷ 399000 ∷ 360000 ∷ 361000 ∷ 362000 ∷ 363000 ∷ 364000
    ∷ 365000 ∷ 366000 ∷ 367000 ∷ 368000 ∷ 369000 ∷ 386000 ∷ 387000 ∷ 962000 ∷ 963000 ∷ 988000
    ∷ 989000 ∷ 370000 ∷ 371000 ∷ 372000 ∷ 373000 ∷ 374000 ∷ 375000 ∷ 376000 ∷ 377000 ∷ 378000
    ∷ 379000 ∷ 396000 ∷ 397000 ∷ 972000 ∷ 973000 ∷ 998000 ∷ 999000 ∷ 400000 ∷ 401000 ∷ 402000
    ∷ 403000 ∷ 404000 ∷ 405000 ∷ 406000 ∷ 407000 ∷ 408000 ∷ 409000 ∷ 480000 ∷ 481000 ∷ 804000
    ∷ 805000 ∷ 884000 ∷ 885000 ∷ 410000 ∷ 411000 ∷ 412000 ∷ 413000 ∷ 414000 ∷ 415000 ∷ 416000
    ∷ 417000 ∷ 418000 ∷ 419000 ∷ 490000 ∷ 491000 ∷ 814000 ∷ 815000 ∷ 894000 ∷ 895000 ∷ 420000
    ∷ 421000 ∷ 422000 ∷ 423000 ∷ 424000 ∷ 425000 ∷ 426000 ∷ 427000 ∷ 428000 ∷ 429000 ∷ 482000
    ∷ 483000 ∷ 824000 ∷ 825000 ∷ 848000 ∷ 849000 ∷ 430000 ∷ 431000 ∷ 432000 ∷ 433000 ∷ 434000
    ∷ 435000 ∷ 436000 ∷ 437000 ∷ 438000 ∷ 439000 ∷ 492000 ∷ 493000 ∷ 834000 ∷ 835000 ∷ 858000
    ∷ 859000 ∷ 440000 ∷ 441000 ∷ 442000 ∷ 443000 ∷ 444000 ∷ 445000 ∷ 446000 ∷ 447000 ∷ 448000
    ∷ 449000 ∷ 484000 ∷ 485000 ∷ 844000 ∷ 845000 ∷ 488000 ∷ 489000 ∷ 450000 ∷ 451000 ∷ 452000
    ∷ 453000 ∷ 454000 ∷ 455000 ∷ 456000 ∷ 457000 ∷ 458000 ∷ 459000 ∷ 494000 ∷ 495000 ∷ 854000
    ∷ 855000 ∷ 498000 ∷ 499000 ∷ 460000 ∷ 461000 ∷ 462000 ∷ 463000 ∷ 464000 ∷ 465000 ∷ 466000
    ∷ 467000 ∷ 468000 ∷ 469000 ∷ 486000 ∷ 487000 ∷ 864000 ∷ 865000 ∷ 888000 ∷ 889000 ∷ 470000
    ∷ 471000 ∷ 472000 ∷ 473000 ∷ 474000 ∷ 475000 ∷ 476000 ∷ 477000 ∷ 478000 ∷ 479000 ∷ 496000
    ∷ 497000 ∷ 874000 ∷ 875000 ∷ 898000 ∷ 899000 ∷ 500000 ∷ 501000 ∷ 502000 ∷ 503000 ∷ 504000
    ∷ 505000 ∷ 506000 ∷ 507000 ∷ 508000 ∷ 509000 ∷ 580000 ∷ 581000 ∷ 904000 ∷ 905000 ∷ 984000
    ∷ 985000 ∷ 510000 ∷ 511000 ∷ 512000 ∷ 513000 ∷ 514000 ∷ 515000 ∷ 516000 ∷ 517000 ∷ 518000
    ∷ 519000 ∷ 590000 ∷ 591000 ∷ 914000 ∷ 915000 ∷ 994000 ∷ 995000 ∷ 520000 ∷ 521000 ∷ 522000
    ∷ 523000 ∷ 524000 ∷ 525000 ∷ 526000 ∷ 527000 ∷ 528000 ∷ 529000 ∷ 582000 ∷ 583000 ∷ 924000
    ∷ 925000 ∷ 948000 ∷ 949000 ∷ 530000 ∷ 531000 ∷ 532000 ∷ 533000 ∷ 534000 ∷ 535000 ∷ 536000
    ∷ 537000 ∷ 538000 ∷ 539000 ∷ 592000 ∷ 593000 ∷ 934000 ∷ 935000 ∷ 958000 ∷ 959000 ∷ 540000
    ∷ 541000 ∷ 542000 ∷ 543000 ∷ 544000 ∷ 545000 ∷ 546000 ∷ 547000 ∷ 548000 ∷ 549000 ∷ 584000
    ∷ 585000 ∷ 944000 ∷ 945000 ∷ 588000 ∷ 589000 ∷ 550000 ∷ 551000 ∷ 552000 ∷ 553000 ∷ 554000
    ∷ 555000 ∷ 556000 ∷ 557000 ∷ 558000 ∷ 559000 ∷ 594000 ∷ 595000 ∷ 954000 ∷ 955000 ∷ 598000
    ∷ 599000 ∷ 560000 ∷ 561000 ∷ 562000 ∷ 563000 ∷ 564000 ∷ 565000 ∷ 566000 ∷ 567000 ∷ 568000
    ∷ 569000 ∷ 586000 ∷ 587000 ∷ 964000 ∷ 965000 ∷ 988000 ∷ 989000 ∷ 570000 ∷ 571000 ∷ 572000
    ∷ 573000 ∷ 574000 ∷ 575000 ∷ 576000 ∷ 577000 ∷ 578000 ∷ 579000 ∷ 596000 ∷ 597000 ∷ 974000
    ∷ 975000 ∷ 998000 ∷ 999000 ∷ 600000 ∷ 601000 ∷ 602000 ∷ 603000 ∷ 604000 ∷ 605000 ∷ 606000
    ∷ 607000 ∷ 608000 ∷ 609000 ∷ 680000 ∷ 681000 ∷ 806000 ∷ 807000 ∷ 886000 ∷ 887000 ∷ 610000
    ∷ 611000 ∷ 612000 ∷ 613000 ∷ 614000 ∷ 615000 ∷ 616000 ∷ 617000 ∷ 618000 ∷ 619000 ∷ 690000
    ∷ 691000 ∷ 816000 ∷ 817000 ∷ 896000 ∷ 897000 ∷ 620000 ∷ 621000 ∷ 622000 ∷ 623000 ∷ 624000
    ∷ 625000 ∷ 626000 ∷ 627000 ∷ 628000 ∷ 629000 ∷ 682000 ∷ 683000 ∷ 826000 ∷ 827000 ∷ 868000
    ∷ 869000 ∷ 630000 ∷ 631000 ∷ 632000 ∷ 633000 ∷ 634000 ∷ 635000 ∷ 636000 ∷ 637000 ∷ 638000
    ∷ 639000 ∷ 692000 ∷ 693000 ∷ 836000 ∷ 837000 ∷ 878000 ∷ 879000 ∷ 640000 ∷ 641000 ∷ 642000
    ∷ 643000 ∷ 644000 ∷ 645000 ∷ 646000 ∷ 647000 ∷ 648000 ∷ 649000 ∷ 684000 ∷ 685000 ∷ 846000
    ∷ 847000 ∷ 688000 ∷ 689000 ∷ 650000 ∷ 651000 ∷ 652000 ∷ 653000 ∷ 654000 ∷ 655000 ∷ 656000
    ∷ 657000 ∷ 658000 ∷ 659000 ∷ 694000 ∷ 695000 ∷ 856000 ∷ 857000 ∷ 698000 ∷ 699000 ∷ 660000
    ∷ 661000 ∷ 662000 ∷ 663000 ∷ 664000 ∷ 665000 ∷ 666000 ∷ 667000 ∷ 668000 ∷ 669000 ∷ 686000
    ∷ 687000 ∷ 866000 ∷ 867000 ∷ 888000 ∷ 889000 ∷ 670000 ∷ 671000 ∷ 672000 ∷ 673000 ∷ 674000
    ∷ 675000 ∷ 676000 ∷ 677000 ∷ 678000 ∷ 679000 ∷ 696000 ∷ 697000 ∷ 876000 ∷ 877000 ∷ 898000
    ∷ 899000 ∷ 700000 ∷ 701000 ∷ 702000 ∷ 703000 ∷ 704000 ∷ 705000 ∷ 706000 ∷ 707000 ∷ 708000
    ∷ 709000 ∷ 780000 ∷ 781000 ∷ 906000 ∷ 907000 ∷ 986000 ∷ 987000 ∷ 710000 ∷ 711000 ∷ 712000
    ∷ 713000 ∷ 714000 ∷ 715000 ∷ 716000 ∷ 717000 ∷ 718000 ∷ 719000 ∷ 790000 ∷ 791000 ∷ 916000
    ∷ 917000 ∷ 996000 ∷ 997000 ∷ 720000 ∷ 721000 ∷ 722000 ∷ 723000 ∷ 724000 ∷ 725000 ∷ 726000
    ∷ 727000 ∷ 728000 ∷ 729000 ∷ 782000 ∷ 783000 ∷ 926000 ∷ 927000 ∷ 968000 ∷ 969000 ∷ 730000
    ∷ 731000 ∷ 732000 ∷ 733000 ∷ 734000 ∷ 735000 ∷ 736000 ∷ 737000 ∷ 738000 ∷ 739000 ∷ 792000
    ∷ 793000 ∷ 936000 ∷ 937000 ∷ 978000 ∷ 979000 ∷ 740000 ∷ 741000 ∷ 742000 ∷ 743000 ∷ 744000
    ∷ 745000 ∷ 746000 ∷ 747000 ∷ 748000 ∷ 749000 ∷ 784000 ∷ 785000 ∷ 946000 ∷ 947000 ∷ 788000
    ∷ 789000 ∷ 750000 ∷ 751000 ∷ 752000 ∷ 753000 ∷ 754000 ∷ 755000 ∷ 756000 ∷ 757000 ∷ 758000
    ∷ 759000 ∷ 794000 ∷ 795000 ∷ 956000 ∷ 957000 ∷ 798000 ∷ 799000 ∷ 760000 ∷ 761000 ∷ 762000
    ∷ 763000 ∷ 764000 ∷ 765000 ∷ 766000 ∷ 767000 ∷ 768000 ∷ 769000 ∷ 786000 ∷ 787000 ∷ 966000
    ∷ 967000 ∷ 988000 ∷ 989000 ∷ 770000 ∷ 771000 ∷ 772000 ∷ 773000 ∷ 774000 ∷ 775000 ∷ 776000
    ∷ 777000 ∷ 778000 ∷ 779000 ∷ 796000 ∷ 797000 ∷ 976000 ∷ 977000 ∷ 998000 ∷ 999000 ∷ []
